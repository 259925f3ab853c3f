-- ===== src/Python/Rules.antt =====
-- Pre- and postconditions of methods, and one rule for each way to build a method.
use tessia_baselib.Prelude.{◌≡◌, refl, Bool, true, false, if◌then◌else◌, Option, none, some}
use tessia_baselib.Python.{
  option_case, Error, Outcome, returned, raised, Method, pure, raise, lift, gets, continue, ◌>>=◌,
}

abbrev pub Post {ℓ} :
    {S A : Type ℓ} → (A → S → Type ℓ) → (Error → S → Type ℓ) → Outcome A → S → Type ℓ
Post Q E (returned a) s = Q a s
Post Q E (raised e) s = E e s

-- From a state in `P`, `m` returns a value and a state in `Q`, or raises with both in `E`.
pub record Triple {ℓ} {S A : Type ℓ} (P : S → Type ℓ) (m : Method S A) (Q : A → S → Type ℓ)
    (E : Error → S → Type ℓ) : Type ℓ where
  pub at : (s : S) → P s → Post Q E (m s).0 (m s).1

module _ {ℓ} {S A : Type ℓ} {P : S → Type ℓ} {Q : A → S → Type ℓ} {E : Error → S → Type ℓ} where
  pub Triple-pure : (a : A) → ((s : S) → P s → Q a s) → Triple P (pure a) Q E
  unfolding pure
  Triple-pure a h = record { at = h }

  pub Triple-raise : (e : Error) → ((s : S) → P s → E e s) → Triple P (raise e) Q E
  unfolding raise
  Triple-raise e h = record { at = h }

  pub Triple-if :
      (b : Bool) (m n : Method S A)
      → (b ≡ true → Triple P m Q E)
      → (b ≡ false → Triple P n Q E)
      → Triple P (if b then m else n) Q E
  Triple-if true m n h k = h refl
  Triple-if false m n h k = k refl

  pub Triple-option :
      {B : Type ℓ} (o : Option B) (n : Method S A) (f : B → Method S A)
      → (o ≡ none → Triple P n Q E)
      → ((b : B) → o ≡ some b → Triple P (f b) Q E)
      → Triple P (option_case o n f) Q E
  Triple-option none n f h k = h refl
  Triple-option (some b) n f h k = k b refl

module _ {ℓ} {S A B : Type ℓ} {R : A → S → Type ℓ} {Q : B → S → Type ℓ}
    {E : Error → S → Type ℓ} where
  continue-Post :
      (r : Outcome A) (s : S) (f : A → Method S B)
      → ((a : A) → Triple (R a) (f a) Q E)
      → Post R E r s
      → Post Q E (continue r f s).0 (continue r f s).1
  continue-Post (returned a) s f k h = (k a).at s h
  continue-Post (raised e) s f k h = h

  pub Triple-bind :
      {P : S → Type ℓ} (m : Method S A) (f : A → Method S B)
      → Triple P m R E
      → ((a : A) → Triple (R a) (f a) Q E)
      → Triple P (m >>= f) Q E
  unfolding ◌>>=◌
  Triple-bind m f h k = record { at = λ s p. continue-Post (m s).0 (m s).1 f k (h.at s p) }

module _ {ℓ} {S A B : Type ℓ} {Q : B → S → Type ℓ} {E : Error → S → Type ℓ} where
  -- the rest of the block may use what the lifted outcome was
  pub Triple-lift :
      {P : S → Type ℓ} (r : Outcome A) (f : A → Method S B)
      → ((a : A) → r ≡ returned a → Triple P (f a) Q E)
      → ((e : Error) (s : S) → r ≡ raised e → P s → E e s)
      → Triple P (lift r >>= f) Q E
  unfolding ◌>>=◌
  Triple-lift (returned a) f k h = k a refl
  Triple-lift (raised e) f k h = record { at = λ s p. h e s refl p }

  -- the rest of the block may use what was read
  pub Triple-gets :
      {P : S → Type ℓ} (g : S → A) (f : A → Method S B)
      → ((a : A) → Triple (λ s. P s × (g s ≡ a)) (f a) Q E)
      → Triple P (gets g >>= f) Q E
  unfolding ◌>>=◌
  Triple-gets g f k = record { at = λ s p. (k (g s)).at s (p, refl) }

module _ {ℓ} {S A : Type ℓ} {P : S → Type ℓ} {E : Error → S → Type ℓ} where
  -- A call about which nothing is known but that it was made.
  pub Triple-call :
      (m : Method S A)
      → ((e : Error) (s s' : S) → P s → m s ≡ (raised e, s') → E e s')
      → Triple P m (λ a s'. (s : S) × P s × (m s ≡ (returned a, s'))) E
  Triple-call m k = record { at = λ s p. go s p (m s).0 (m s).1 refl }
    where
      go :
          (s : S)
          → P s
          → (r : Outcome A) (s' : S) → m s ≡ (r, s')
          → Post (λ b t. (u : S) × P u × (m u ≡ (returned b, t))) E r s'
      go s p (returned a) s' h = (s, p, h)
      go s p (raised e) s' h = k e s s' p h

module _ {ℓ} {S A : Type ℓ} where
  Post-weaken :
      (Q Q' : A → S → Type ℓ) (E : Error → S → Type ℓ) (r : Outcome A) (s : S)
      → ((a : A) (t : S) → Q a t → Q' a t)
      → Post Q E r s
      → Post Q' E r s
  Post-weaken Q Q' E (returned a) s f h = f a s h
  Post-weaken Q Q' E (raised e) s f h = h

  -- a weaker postcondition
  pub Triple-weaken :
      {P : S → Type ℓ} {Q Q' : A → S → Type ℓ} {E : Error → S → Type ℓ} (m : Method S A)
      → Triple P m Q E
      → ((a : A) (s : S) → Q a s → Q' a s)
      → Triple P m Q' E
  Triple-weaken {Q = Q} {Q' = Q'} {E = E} m h f = record {
    at = λ s p. Post-weaken Q Q' E (m s).0 (m s).1 f (h.at s p);
  }

  -- a stronger precondition
  pub Triple-strengthen :
      {P P' : S → Type ℓ} {Q : A → S → Type ℓ} {E : Error → S → Type ℓ} (m : Method S A)
      → Triple P m Q E
      → ((s : S) → P' s → P s)
      → Triple P' m Q E
  Triple-strengthen m h f = record { at = λ s p. h.at s (f s p) }
