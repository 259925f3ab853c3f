-- ===== src/Linux/Gives.antt =====
-- Methods on a host that end in one of three ways: with a value of which something is known, with a
-- RuntimeError, or with what the connection raised. One rule for each way to build a method.
use tessia_baselib.Prelude.{
  ℕ, ◌==◌, ◌≡◌, refl, Bool, true, false, Option, none, some, List, [], ◌∷◌, String, Text,
  if◌then◌else◌,
}
use tessia_baselib.Python.{
  Error, runtime_error, foreign, is_runtime, Outcome, returned, raised, Method, pure, raise, lift,
  modify, continue, handle, except_runtime, ◌>>=◌,
}
use tessia_baselib.Linux.Host.{Host}
use tessia_baselib.Linux.Timer.{poll, succeeds, timer, timer_end}

abbrev pub IsReported : Error → Type 0
IsReported (runtime_error m) = Unit
IsReported (foreign n) = Unit
IsReported _ = ⊥

abbrev pub Ends : {A : Type 0} → (A → Type 0) → Outcome A → Type 0
Ends Q (returned a) = Q a
Ends Q (raised e) = IsReported e

pub record Gives {W A : Type 0} (Q : A → Type 0) (m : Method W A) : Type 0 where
  pub at : (w : W) → Ends Q (m w).0

abbrev pub Any : {A : Type 0} → A → Type 0
Any a = Unit

-- What a polling round has found.
abbrev pub Found : {A : Type 0} → (A → Type 0) → Option A → Type 0
Found Q none = Unit
Found Q (some a) = Q a

handled :
    {W A : Type 0} (Q : A → Type 0) (r : Outcome A) (k : Method W A) (w : W)
    → Ends Q r
    → Ends Q (k w).0
    → Ends Q (handle is_runtime k r w).0
handled Q (returned a) k w h g = h
handled Q (raised (runtime_error m)) k w h g = g
handled Q (raised (foreign n)) k w h g = h
handled Q (raised e) k w h g = absurd h

module _ {W A : Type 0} {Q : A → Type 0} where
  pub Gives-pure : (a : A) → Q a → Gives Q (pure {S = W} a)
  unfolding pure
  Gives-pure a q = record { at = λ w. q }

  pub Gives-raise : (m : String) → Gives Q (raise {S = W} (runtime_error m))
  unfolding raise
  Gives-raise m = record { at = λ w. tt }

  pub Gives-if :
      (b : Bool) (m n : Method W A)
      → (b ≡ true → Gives Q m)
      → (b ≡ false → Gives Q n)
      → Gives Q (if b then m else n)
  Gives-if true m n h k = h refl
  Gives-if false m n h k = k refl

  pub Gives-lift : (r : Outcome A) (a : A) → r ≡ returned a → Q a → Gives Q (lift {S = W} r)
  unfolding lift
  Gives-lift r a e q = record { at = λ w. rw e q }

  pub Gives-Any : (m : Method W A) → Gives Q m → Gives Any m
  Gives-Any m h = record { at = λ w. go (m w).0 (h.at w) }
    where
      go : (r : Outcome A) → Ends Q r → Ends Any r
      go (returned a) k = tt
      go (raised e) k = k

  pub Gives-except : (m k : Method W A) → Gives Q m → Gives Q k → Gives Q (except_runtime m k)
  Gives-except m k h g = record { at = λ w. handled Q (m w).0 k (m w).1 (h.at w) (g.at (m w).1) }

module _ {W A B : Type 0} {R : A → Type 0} {Q : B → Type 0} where
  continue-Ends :
      (r : Outcome A) (f : A → Method W B) (w : W)
      → Ends R r
      → ((a : A) → R a → Gives Q (f a))
      → Ends Q (continue r f w).0
  continue-Ends (returned a) f w h k = (k a h).at w
  continue-Ends (raised e) f w h k = h

  pub Gives-bind :
      (m : Method W A) (f : A → Method W B)
      → Gives R m
      → ((a : A) → R a → Gives Q (f a))
      → Gives Q (m >>= f)
  unfolding ◌>>=◌
  Gives-bind m f h k = record { at = λ w. continue-Ends (m w).0 f (m w).1 (h.at w) k }

module _ (h : Host) where
  pub Gives-sleep : (n : ℕ) → Gives Any (modify (h.sleep n))
  unfolding modify
  Gives-sleep n = record { at = λ w. tt }

  pub Gives-poll :
      {A : Type 0} {Q : A → Type 0} (times : List ℕ) (attempt : Method h.World (Option A))
      → Gives (Found Q) attempt
      → Gives (Found Q) (poll h times attempt)
  unfolding poll
  Gives-poll [] attempt g = Gives-pure none tt
  Gives-poll {Q = Q} (n ∷ ns) attempt g =
      Gives-bind _ _ (Gives-sleep n) λ u t. Gives-bind _ _ g (go (Gives-poll ns attempt g))
    where
      go :
          Gives (Found Q) (poll h ns attempt)
          → (o : Option _) → Found Q o
          → Gives (Found Q) (elim o [ none ↦ poll h ns attempt | some a ↦ pure (some a) ])
      go ih none f = ih
      go ih (some a) f = Gives-pure (some a) f

  -- What a command on a shell raises is a RuntimeError or an error of the connection.
  pub record IsConnection : Type 0 where
    pub run_reports : (shell : h.Shell) (cmd : Text) → Gives Any (h.run shell cmd)

module _ (h : Host) (c : IsConnection h) (shell : h.Shell) where
  pub Gives-succeeds : (cmd : Text) → Gives (Found Any) (succeeds h shell cmd)
  unfolding succeeds
  Gives-succeeds cmd =
      Gives-bind _ _ (c.run_reports shell cmd) λ r t. Gives-pure _ (found (r.0 == 0))
    where
      found : (b : Bool) → Found Any (if b then some tt else none)
      found true = tt
      found false = tt

  pub Gives-timer :
      (cmd : Text) (n : ℕ) (ns : List ℕ) (message : String)
      → Gives Any (timer h shell cmd (n ∷ ns) message)
  unfolding timer
  Gives-timer cmd n ns message =
      Gives-bind _ _ (Gives-poll h (n ∷ ns) (succeeds h shell cmd) (Gives-succeeds cmd)) ended
    where
      ended : (o : Option (Unit {0})) → Found Any o → Gives Any (timer_end h message o)
      ended none f = Gives-raise message
      ended (some u) f = Gives-pure tt tt
