-- ===== src/Ssh/Shell/Endless.antt =====
-- A read of bytes that cannot be decoded has no end (common/ssh/shell.py).
use tessia_baselib.Prelude.{
  ℕ, zero, suc, ◌+◌, ◌*◌, ◌≡◌, refl, sym, subst, Bool, true, false, ltb, Option, none, List, [],
  ◌∷◌, ◌++◌, arith, ◌==◌, ◌||◌, Text, if◌then◌else◌,
}
use tessia_baselib.Python.{
  Error, timeout_error, out_of_fuel, Outcome, returned, raised, Method, pure, raise, lift, gets,
  option_case, ◌>>=◌,
}
use tessia_baselib.Python.Rules.{
  Post, Triple, Triple-raise, Triple-bind, Triple-gets, Triple-strengthen,
}
use tessia_baselib.Ssh.Shell.{
  Received, decoded, timed_out, undecodable, Socket, Step, look, again, cut, take_received,
  read_prompt, read,
}

-- whether the byte 0xff is among them
unfoldable pub has_ff : List ℕ → Bool
has_ff [] = false
has_ff (b ∷ bs) = b == 0xff || has_ff bs

-- A socket that always has something to read, and each part has the byte 0xff: UTF-8 never uses it, so
-- that no bytes with it can be decoded.
pub record Garbles (k : Socket) : Type 0 where
  pub always_ready : (w : k.World) → (k.select w).0 ≡ returned true
  pub receives :
      (w : k.World)
      → (bytes : List ℕ) × (has_ff bytes ≡ true) × ((k.recv w).0 ≡ returned (undecodable bytes))
  pub decodes_none : (bytes : List ℕ) → (has_ff bytes ≡ true) → k.decode bytes ≡ none

has_ff-append : (as' bs : List ℕ) → has_ff bs ≡ true → has_ff (as' ++ bs) ≡ true
unfolding has_ff
has_ff-append [] bs h = h
has_ff-append (a ∷ as') bs h = ground (arith, has_ff-append as' bs h)

abbrev OutOfFuel : {S : Type 0} → Error → S → Type 0
OutOfFuel e s = e ≡ out_of_fuel

-- It does not end before its rounds are used up.
abbrev pub Loops : {S A : Type 0} → Method S A → Type 0
Loops m = Triple (λ s. Unit) m (λ a s. ⊥) (λ e s. e ≡ out_of_fuel)

module _ {k : Socket} (garbles : Garbles k) where
  abbrev Undecodable : Received → k.World → Type 0
  Undecodable (undecodable bytes) w = (has_ff bytes ≡ true)
  Undecodable _ w = ⊥

  -- the rest of the loop is skipped
  abbrev IsAgain : Step → k.World → Type 0
  IsAgain (again t bytes) w = Unit
  IsAgain (look t bytes) w = ⊥

  select_ready : Triple (λ w. Unit) k.select (λ b w. b ≡ true) OutOfFuel
  select_ready = record { at = λ w h. go (k.select w).0 (k.select w).1 (garbles.always_ready w) }
    where
      go :
          (r : Outcome Bool) (w : k.World)
          → r ≡ returned true
          → Post (λ b w. b ≡ true) OutOfFuel r w
      go (returned b) w e = cc e
      go (raised x) w e = absurd (cc e)

  recv_garbled : Triple (λ w. Unit) k.recv Undecodable OutOfFuel
  recv_garbled = record {
    at = λ w h. (let (bytes, m, e) = garbles.receives w in go bytes m (k.recv w).0 (k.recv w).1 e);
  }
    where
      go :
          (bytes : List ℕ)
          → (has_ff bytes ≡ true)
          → (r : Outcome Received) (w : k.World) → r ≡ returned (undecodable bytes)
          → Post Undecodable OutOfFuel r w
      go bytes m r w e = subst (λ r. Post Undecodable OutOfFuel r w) (sym e) m

  taken :
      (t : Text) (bytes : List ℕ) (r : Received)
      → Triple (Undecodable r) (lift (take_received k t bytes r)) IsAgain OutOfFuel
  unfolding take_received lift
  taken t [] (undecodable bytes) = record { at = λ w h. tt }
  taken t (c ∷ cs) (undecodable bytes) = record {
    at = λ w h. rw (garbles.decodes_none ((c ∷ cs) ++ bytes) (has_ff-append (c ∷ cs) bytes h)) tt;
  }
  taken t [] (decoded u) = record { at = λ w h. absurd h }
  taken t (c ∷ cs) (decoded u) = record { at = λ w h. absurd h }
  taken t bytes timed_out = record { at = λ w h. absurd h }

  answered :
      (t : Text) (bytes : List ℕ) (ready : Bool)
      → Triple
          (λ w. ready ≡ true)
          (if ready then (do r ← k.recv; lift (take_received k t bytes r)) else pure (look t bytes))
          IsAgain
          OutOfFuel
  answered t bytes true =
      Triple-bind _ _ (Triple-strengthen k.recv recv_garbled λ w h. tt) λ r. taken t bytes r
  answered t bytes false = record { at = λ w h. absurd (cc h) }

  read_prompt-Loops :
      (fuel deadline : ℕ) (prompt t : Text) (bytes : List ℕ)
      → Loops (read_prompt k fuel deadline prompt t bytes)
  unfolding read_prompt
  read_prompt-Loops zero deadline prompt t bytes = Triple-raise _ λ w h. refl
  read_prompt-Loops (suc fuel) deadline prompt t bytes = Triple-bind _ _ select_ready λ ready.
      Triple-bind _ _ (answered t bytes ready)
        λ step. by_step (read_prompt-Loops fuel deadline prompt) step
    where
      by_step :
          ((u : Text) (bytes : List ℕ) → Loops (read_prompt k fuel deadline prompt u bytes))
          → (step : Step)
          → Triple
              (IsAgain step)
              (elim step as (λ x. Method k.World Text) [
                | again output bytes ↦ read_prompt k fuel deadline prompt output bytes
                | look output bytes ↦
                    option_case
                      (cut prompt output)
                      (do
                        now ← gets k.time
                        if ltb deadline now
                            then raise (timeout_error "Timeout waiting for command output")
                            else read_prompt k fuel deadline prompt output bytes)
                      λ r. pure r.0
              ])
              (λ a w. ⊥)
              OutOfFuel
      by_step ih (look u bytes) = record { at = λ w h. absurd h }
      by_step ih (again u bytes) = Triple-strengthen _ (ih u bytes) λ w h. tt

  -- On a socket that always has something to read, each part of it with the byte 0xff, which no UTF-8 text
  -- has, _read stays in its loop, whatever its timeout and however late it is: any number of rounds is used
  -- up, since a part that cannot be decoded skips the test of the clock.
  pub read-Loops :
      (fuel : ℕ) (prompt : Text) (timeout : ℕ) (echo : Option Text)
      → Loops (read k fuel prompt timeout echo)
  unfolding read
  read-Loops fuel prompt timeout echo = Triple-gets _ _ λ now.
      Triple-bind _ _
        (Triple-strengthen _ (read_prompt-Loops fuel (now + timeout * k.second) prompt [] [])
          λ w h. tt)
        λ t. record { at = λ w h. absurd h }
