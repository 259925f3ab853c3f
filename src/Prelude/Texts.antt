-- ===== src/Prelude/Texts.antt =====
-- More of `str`: case (of ASCII letters), decimal numbers, slices, and splitting at a character.
use Prim.Native.Nat.{ℕ, zero, suc, ◌+◌, ◌-◌, ◌/◌, ◌%◌, ◌≤◌}
use mathlib.Core.Path.{◌≡◌, refl}
use mathlib.Core.Bool.{◌&&◌}
use mathlib.Core.List.{List, [], ◌∷◌, ◌++◌, map}
use native.Mathlib.Omega.{arith}
use tessia_baselib.Prelude.Tests.{◌==◌, leb, if◌then◌else◌}
use tessia_baselib.Prelude.Lists.{length}
use tessia_baselib.Prelude.Strings.{Text, lit}

unfoldable pub lower_char : ℕ → ℕ
lower_char c = if leb b'A' c && leb c b'Z' then c + 32 else c

-- `str.lower`, of a text whose letters are ASCII
unfoldable pub lower : Text → Text
unfolding lower_char
lower = map lower_char

unfoldable pub upper_char : ℕ → ℕ
upper_char c = if leb b'a' c && leb c b'z' then c - 32 else c

-- `str.upper`, of a text whose letters are ASCII
unfoldable pub upper : Text → Text
unfolding upper_char
upper = map upper_char

decimal_digits : ℕ → ℕ → Text
decimal_digits zero n = []
decimal_digits (suc fuel) n =
    let rest = decimal_digits fuel (n / 10) ++ (48 + n % 10) ∷ [] in if n == 0 then [] else rest

-- str(n)
unfoldable pub decimal : ℕ → Text
unfolding decimal_digits
decimal n = if n == 0 then lit "0" else decimal_digits n n

module _ {ℓ} {A : Type ℓ} where
  -- `xs[:n]` and `xs[n:]`
  unfoldable pub take : ℕ → List A → List A
  take zero xs = []
  take (suc n) [] = []
  take (suc n) (x ∷ xs) = x ∷ take n xs

  unfoldable pub drop : ℕ → List A → List A
  drop zero xs = xs
  drop (suc n) [] = []
  drop (suc n) (x ∷ xs) = drop n xs

  pub append-take-drop : (n : ℕ) (xs : List A) → take n xs ++ drop n xs ≡ xs
  unfolding take drop
  append-take-drop zero xs = refl
  append-take-drop (suc n) [] = refl
  append-take-drop (suc n) (x ∷ xs) = rw (append-take-drop n xs) refl

  pub length-take-le : (n : ℕ) (xs : List A) → length (take n xs) ≤ n
  unfolding take
  length-take-le zero xs = omega arith
  length-take-le (suc n) [] = omega arith
  length-take-le (suc n) (x ∷ xs) = omega (arith, length-take-le n xs)

  pub length-drop : (n : ℕ) (xs : List A) → length (drop n xs) ≡ length xs - n
  unfolding drop
  length-drop zero xs = omega arith
  length-drop (suc n) [] = omega arith
  length-drop (suc n) (x ∷ xs) = omega (arith, length-drop n xs)

  -- `xs[-n:]`
  unfoldable pub take_last : ℕ → List A → List A
  unfolding drop
  take_last n xs = drop (length xs - n) xs

-- the text without a character: `t.replace(c, "")`
unfoldable pub remove_char : ℕ → Text → Text
remove_char d [] = []
remove_char d (c ∷ cs) = if c == d then remove_char d cs else c ∷ remove_char d cs

-- `t.split(c)`, never empty
unfoldable pub split_on : ℕ → Text → List Text
split_on d [] = [] ∷ []
split_on d (c ∷ cs) =
    let rest = split_on d cs in
    if c == d then [] ∷ rest else elim rest [ [] ↦ (c ∷ []) ∷ [] | w ∷ ws ↦ (c ∷ w) ∷ ws ]

-- `separator.join(ts)`
unfoldable pub join : Text → List Text → Text
join s [] = []
join s (t ∷ []) = t
join s (t ∷ (u ∷ us)) = t ++ (s ++ join s (u ∷ us))
