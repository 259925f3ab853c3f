-- ===== src/Prelude/Strings.antt =====
-- Python's `str` as the list of its code points, and the operations on it that the code uses.
use Prim.Native.Nat.{ℕ}
use Prim.Native.Char.{code}
use Prim.Native.String.{String}
use mathlib.Core.Path.{◌≡◌, refl}
use mathlib.Core.Logic.{◌⊎◌, inl, inr}
use mathlib.Core.Logic.Or
use mathlib.Core.Bool.{Bool, true, false, Bool-set, ◌&&◌, ◌||◌}
use mathlib.Core.List.{List, [], ◌∷◌, Mem, mem-cons, not-mem-nil}
use native.Mathlib.Omega.{arith}
use tessia_baselib.Prelude.Tests.{◌==◌}

abbrev pub Text : Type 0
Text = List ℕ

abbrev codes : String → Text
codes String.[] = []
codes (String.◌∷◌ c s) = code c ∷ codes s

-- A literal of the source. It stays shut in proofs.
unfoldable pub lit : String → Text
lit s = codes s

-- `a == b` on texts
unfoldable pub text_eq : Text → Text → Bool
text_eq [] [] = true
text_eq [] (b ∷ bs) = false
text_eq (a ∷ as') [] = false
text_eq (a ∷ as') (b ∷ bs) = (a == b) && text_eq as' bs

pub text_eq→≡ : (a b : Text) → text_eq a b ≡ true → a ≡ b
unfolding text_eq
text_eq→≡ [] [] h = refl
text_eq→≡ [] (b ∷ bs) h = cc
text_eq→≡ (a ∷ as') [] h = cc
text_eq→≡ (a ∷ as') (b ∷ bs) h = ground (arith, text_eq→≡ as' bs)

pub text_eq_refl : (a : Text) → text_eq a a ≡ true
unfolding text_eq
text_eq_refl [] = refl
text_eq_refl (a ∷ as') = ground (arith, text_eq_refl as')

-- `a in xs`
unfoldable pub contains : List Text → Text → Bool
unfolding text_eq
contains [] a = false
contains (x ∷ xs) a = text_eq a x || contains xs a

true_or : (a b : Bool) → (a || b) ≡ true → (a ≡ true) ⊎ (b ≡ true)
true_or a b h = ground arith

pub contains→Mem : (xs : List Text) (a : Text) → contains xs a ≡ true → Mem a xs
unfolding contains
contains→Mem [] a h = cc
contains→Mem (x ∷ xs) a h = elim (true_or (text_eq a x) (contains xs a) h) [
  | inl e ↦ mem-cons.1 (Or.inl (text_eq→≡ a x e))
  | inr m ↦ mem-cons.1 (Or.inr (contains→Mem xs a m))
]

pub Mem→contains : (xs : List Text) (a : Text) → Mem a xs → contains xs a ≡ true
unfolding contains
Mem→contains [] a m = absurd (not-mem-nil m)
Mem→contains (x ∷ xs) a m =
    Or.elim (Bool-set _ _) (mem-cons.0 m)
      (λ e. let same : text_eq a x ≡ true = rw (← e) (text_eq_refl a) in ground arith)
      (λ r. let later : contains xs a ≡ true = Mem→contains xs a r in ground arith)

pub not-Mem : (xs : List Text) (a : Text) → contains xs a ≡ false → ¬ Mem a xs
not-Mem xs a h m = cc (h, Mem→contains xs a m)
