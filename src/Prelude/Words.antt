-- ===== src/Prelude/Words.antt =====
-- `str.strip`, `str.split()`, `str.splitlines()[-1]`, `str.startswith` and `str.replace`.
use Prim.Native.Nat.{ℕ}
use mathlib.Core.Path.{◌≡◌, refl, subst}
use mathlib.Core.Logic.{◌≢◌, inl, inr}
use mathlib.Core.Bool.{Bool, true, false, ◌&&◌, ◌||◌}
use mathlib.Core.Option.{Option, none, some}
use mathlib.Core.List.{List, [], ◌∷◌, ◌++◌, reverse}
use tessia_baselib.Prelude.Tests.{◌==◌, leb, if◌then◌else◌, Bool-cases}
use tessia_baselib.Prelude.Lists.{All, All-append}
use tessia_baselib.Prelude.Strings.{Text}

-- `str.isspace` of one character
unfoldable pub is_space : ℕ → Bool
is_space c =
    leb 9 c && leb c 13
    || leb 28 c && leb c 32
    || c == 0x85
    || c == 0xa0
    || c == 0x1680
    || leb 0x2000 c && leb c 0x200a
    || c == 0x2028
    || c == 0x2029
    || c == 0x202f
    || c == 0x205f
    || c == 0x3000

unfoldable pub lstrip : Text → Text
unfolding is_space
lstrip [] = []
lstrip (c ∷ cs) = if is_space c then lstrip cs else c ∷ cs

unfoldable pub strip : Text → Text
unfolding lstrip
strip t = lstrip (reverse (lstrip (reverse t)))

-- the word read so far, before the words that follow
abbrev flush : Text → List Text → List Text
flush [] ws = ws
flush (c ∷ cs) ws = (c ∷ cs) ∷ ws

words_from : Text → Text → List Text
words_from word [] = flush word []
words_from word (c ∷ cs) =
    let ended = words_from [] cs in
    let longer = words_from (word ++ c ∷ []) cs in if is_space c then flush word ended else longer

-- `t.split()`
unfoldable pub split : Text → List Text
unfolding words_from is_space
split t = words_from [] t

unfoldable pub last : {A : Type 0} → List A → Option A
last [] = none
last (x ∷ []) = some x
last (x ∷ (y ∷ ys)) = last (y ∷ ys)

unfoldable pub is_line_end : ℕ → Bool
is_line_end c =
    leb 10 c && leb c 13 || leb 28 c && leb c 30 || c == 0x85 || c == 0x2028 || c == 0x2029

line_from : Text → Text → Text
line_from line [] = line
line_from line (c ∷ cs) = line_from (if is_line_end c then [] else line ++ c ∷ []) cs

-- `t.splitlines()[-1]`, for a text that is not empty and does not end in a line end
unfoldable pub last_line : Text → Text
unfolding line_from is_line_end
last_line t = line_from [] t

-- `t.startswith(prefix)`
unfoldable pub starts_with : Text → Text → Bool
starts_with t [] = true
starts_with [] (p ∷ ps) = false
starts_with (c ∷ cs) (p ∷ ps) = c == p && starts_with cs ps

-- `p in t`
unfoldable pub has_part : Text → Text → Bool
unfolding starts_with
has_part [] p = starts_with [] p
has_part (c ∷ cs) p = let later = has_part cs p in starts_with (c ∷ cs) p || later

-- `t.replace("0x", "")`: from left to right
unfoldable pub remove_0x : Text → Text
remove_0x [] = []
remove_0x (c ∷ []) = c ∷ []
remove_0x (c ∷ (d ∷ cs)) =
    let dropped = remove_0x cs in
    let kept = remove_0x (d ∷ cs) in if c == b'0' && d == b'x' then dropped else c ∷ kept

-- A word of a split text: not empty, and without a space.
pub record IsWord (w : Text) : Type 0 where
  pub not_empty : w ≢ []
  pub no_space : All (λ c. is_space c ≡ false) w

snoc-ne-nil : (w : Text) (c : ℕ) → w ++ c ∷ [] ≢ []
snoc-ne-nil [] c h = cc
snoc-ne-nil (d ∷ w) c h = cc

flush-All :
    (w : Text) (ws : List Text)
    → All (λ c. is_space c ≡ false) w
    → All IsWord ws
    → All IsWord (flush w ws)
flush-All [] ws h k = k
flush-All (c ∷ cs) ws h k = (record { not_empty = λ e. cc; no_space = h }, k)

words_from-All : (w t : Text) → All (λ c. is_space c ≡ false) w → All IsWord (words_from w t)
unfolding words_from
words_from-All w [] h = flush-All w [] h tt
words_from-All w (c ∷ cs) h = elim (Bool-cases (is_space c)) [
  | inl space ↦ rw space (flush-All w (words_from [] cs) h (words_from-All [] cs tt))
  | inr char ↦ rw char (
      words_from-All (w ++ c ∷ []) cs
        (All-append (λ d. is_space d ≡ false) w (c ∷ []) h (char, tt)))
]

-- Every element of `t.split()` is a word.
pub split-All : (t : Text) → All IsWord (split t)
unfolding split
split-All t = words_from-All [] t tt

last-All : (P : Text → Type 0) (ws : List Text) (w : Text) → All P ws → last ws ≡ some w → P w
unfolding last
last-All P [] w h e = cc
last-All P (x ∷ []) w h e = let p : x ≡ w = cc in subst P p h.0
last-All P (x ∷ (y ∷ ys)) w h e = last-All P (y ∷ ys) w h.1 e

pub last-split-IsWord : (t w : Text) → last (split t) ≡ some w → IsWord w
last-split-IsWord t w e = last-All IsWord (split t) w (split-All t) e

lstrip_head : (t : Text) (c : ℕ) (cs : Text) → lstrip t ≡ c ∷ cs → is_space c ≡ false
unfolding lstrip
lstrip_head [] c cs h = cc
lstrip_head (d ∷ t) c cs h = elim (Bool-cases (is_space d)) [
  | inl space ↦ lstrip_head t c cs (rw space at h)
  | inr char ↦
      let e : d ∷ t ≡ c ∷ cs = rw char at h in
      let f : d ≡ c = cc in subst (λ x. is_space x ≡ false) f char
]

flush-ne-nil : (w : Text) (ws : List Text) → w ≢ [] → flush w ws ≢ []
flush-ne-nil [] ws h e = absurd (h refl)
flush-ne-nil (c ∷ cs) ws h e = cc

words_from-ne-nil : (w t : Text) → w ≢ [] → words_from w t ≢ []
unfolding words_from
words_from-ne-nil w [] h = flush-ne-nil w [] h
words_from-ne-nil w (c ∷ cs) h = elim (Bool-cases (is_space c)) [
  | inl space ↦ rw space (flush-ne-nil w (words_from [] cs) h)
  | inr char ↦ rw char (words_from-ne-nil (w ++ c ∷ []) cs (snoc-ne-nil w c))
]

split_from_char : (c : ℕ) (cs : Text) → is_space c ≡ false → split (c ∷ cs) ≢ []
unfolding split words_from
split_from_char c cs h = rw h (words_from-ne-nil (c ∷ []) cs (λ e. cc))

split-strip_text : (t u : Text) → strip t ≡ u → u ≢ [] → split u ≢ []
unfolding strip
split-strip_text t [] h n = absurd (n refl)
split-strip_text t (c ∷ cs) h n =
    split_from_char c cs (lstrip_head (reverse (lstrip (reverse t))) c cs h)

last_some : (ws : List Text) → ws ≢ [] → (w : Text) × (last ws ≡ some w)
unfolding last
last_some [] h = absurd (h refl)
last_some (x ∷ []) h = (x, refl)
last_some (x ∷ (y ∷ ys)) h = last_some (y ∷ ys) (λ e. cc)

-- A stripped text that is not empty has a last word.
pub last-split-strip : (t : Text) → strip t ≢ [] → (w : Text) × (last (split (strip t)) ≡ some w)
last-split-strip t h = last_some (split (strip t)) (split-strip_text t (strip t) refl h)
