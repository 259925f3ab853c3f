-- ===== src/Prelude/Lists.antt =====
-- Lists measured by native numbers, and the list facts that several parts use.
use Prim.Native.Nat.{ℕ, suc, ◌+◌}
use mathlib.Core.Path.{◌≡◌, sym, subst}
use mathlib.Core.List.{
  List, [], ◌∷◌, ◌++◌, Mem, Nodup, Nodup-cons, mem-cons, mem-append, not-mem-nil,
}
use mathlib.Core.HLevel.{⊥_prop}
use mathlib.Core.Logic.Or
use native.Mathlib.Omega.{arith}

module _ {ℓ} {A : Type ℓ} where
  abbrev pub length : List A → ℕ
  length [] = 0
  length (x ∷ xs) = suc (length xs)

  pub length-append : (xs ys : List A) → length (xs ++ ys) ≡ length xs + length ys
  length-append [] ys = omega arith
  length-append (x ∷ xs) ys = omega (arith, length-append xs ys)

-- A predicate on every element, by recursion.
abbrev pub All {ℓ κ} : {A : Type ℓ} → (A → Type κ) → List A → Type κ
All P [] = Unit
All P (x ∷ xs) = P x × All P xs

pub All-append {ℓ κ} :
    {A : Type ℓ} (P : A → Type κ) (xs ys : List A) → All P xs → All P ys → All P (xs ++ ys)
All-append P [] ys h k = k
All-append P (x ∷ xs) ys h k = (h.0, All-append P xs ys h.1 k)

-- One more element at the end, where it is not yet in the list.
pub Nodup-snoc {ℓ} :
    {A : Type ℓ} (xs : List A) (a : A) → Nodup xs → ¬ Mem a xs → Nodup (xs ++ a ∷ [])
Nodup-snoc [] a h n = Nodup-cons.1 (not-mem-nil, h)
Nodup-snoc (x ∷ xs) a h n =
    let (fresh, rest) = Nodup-cons.0 h in
    Nodup-cons.1 (
      λ m. Or.elim ⊥_prop (mem-append.0 m) fresh (λ last.
          Or.elim ⊥_prop (mem-cons.0 last) (λ e. n (mem-cons.1 (Or.inl (sym e)))) not-mem-nil),
      Nodup-snoc xs a rest (λ m. n (mem-cons.1 (Or.inr m))),
    )

pub All-map {ℓ κ μ} :
    {A : Type ℓ} (P : A → Type κ) (Q : A → Type μ) (xs : List A)
    → ((x : A) → P x → Q x)
    → All P xs
    → All Q xs
All-map P Q [] f h = tt
All-map P Q (x ∷ xs) f h = (f x h.0, All-map P Q xs f h.1)

pub All-drop {ℓ κ} : {A : Type ℓ} (P : A → Type κ) (xs ys : List A) → All P (xs ++ ys) → All P ys
All-drop P [] ys h = h
All-drop P (x ∷ xs) ys h = All-drop P xs ys h.1

-- What every element of `xs` is, its members are.
pub All-at {ℓ κ} :
    {A : Type ℓ} (P : A → Type κ)
    → ((x : A) → IsProp (P x))
    → (xs : List A) (a : A) → All P xs
    → Mem a xs
    → P a
All-at P prop [] a h m = absurd (not-mem-nil m)
All-at P prop (x ∷ xs) a h m =
    Or.elim (prop a) (mem-cons.0 m) (λ e. subst P (sym e) h.0) (All-at P prop xs a h.1)
