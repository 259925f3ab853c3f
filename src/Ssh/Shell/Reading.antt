-- ===== src/Ssh/Shell/Reading.antt =====
-- What a read has received when it ends, and that it ends in time, unless the bytes cannot be decoded
-- (common/ssh/shell.py).
use tessia_baselib.Prelude.{
  ℕ, zero, suc, ◌+◌, ◌*◌, ◌≤◌, ◌<◌, ◌≡◌, ◌≢◌, refl, sym, ap, subst, ◌∙◌, Bool, true, false, ltb,
  Option, some, List, [], ◌∷◌, ◌++◌, Text, arith, if◌then◌else◌,
}
use tessia_baselib.Python.{
  Error, timeout_error, out_of_fuel, Outcome, returned, raised, Method, pure, raise, lift, gets,
  option_case, ◌>>=◌,
}
use tessia_baselib.Python.Rules.{
  Post, Triple, Triple-pure, Triple-raise, Triple-if, Triple-option, Triple-bind, Triple-gets,
  Triple-strengthen,
}
use tessia_baselib.Ssh.Shell.{
  Received, decoded, timed_out, undecodable, Socket, Step, look, again, cut, clean, take_received,
  read_prompt, read,
}

-- A socket whose clock runs on, a tick or more in each select, that gives only bytes which can be decoded
-- and raises errors of its own, not that of the model.
pub record SocketRuns (k : Socket) : Type 0 where
  pub select_takes : (w : k.World) → k.time w < k.time (k.select w).1
  pub recv_takes : (w : k.World) → k.time w ≤ k.time (k.recv w).1
  pub select_raises : (w : k.World) → (k.select w).0 ≢ raised out_of_fuel
  pub recv_raises : (w : k.World) → (k.recv w).0 ≢ raised out_of_fuel
  pub decodes : (w : k.World) (bytes : List ℕ) → (k.recv w).0 ≢ returned (undecodable bytes)

abbrev pub NotFuel : {S : Type 0} → Error → S → Type 0
NotFuel e s = e ≢ out_of_fuel

module _ (k : Socket) (start : k.World) where
  -- The text was received since `start`, in this order and nothing else.
  pub data Heard : Text → k.World → Type 0 where
    nothing : Heard [] start
    idle : {t : Text} {w w' : k.World} → Heard t w → k.select w ≡ (returned false, w') → Heard t w'
    missed :
        {t : Text} {w w' w'' : k.World}
        → Heard t w
        → k.select w ≡ (returned true, w')
        → k.recv w' ≡ (returned timed_out, w'')
        → Heard t w''
    heard :
        {t u : Text} {w w' w'' : k.World}
        → Heard t w
        → k.select w ≡ (returned true, w')
        → k.recv w' ≡ (returned (decoded u), w'')
        → Heard (t ++ u) w''

  module _ (runs : SocketRuns k) where
    abbrev At : ℕ → Text → k.World → Type 0
    At m t w = Heard t w × (m ≤ k.time w)

    -- the answer of a select
    abbrev Selected : ℕ → Text → Bool → k.World → Type 0
    Selected m t b w' =
        (w : k.World) × Heard t w × (k.select w ≡ (returned b, w')) × (suc m ≤ k.time w')

    select_one : (m : ℕ) (t : Text) → Triple (At m t) k.select (Selected m t) NotFuel
    select_one m t = record { at = λ w h. go w h (k.select w).0 (k.select w).1 refl }
      where
        go :
            (w : k.World)
            → At m t w
            → (r : Outcome Bool) (w' : k.World) → k.select w ≡ (r, w')
            → Post (Selected m t) NotFuel r w'
        go w h (returned b) w' e = (
          w,
          h.0,
          e,
          (let l = runs.select_takes w in ground (arith, l, h.1, ap (λ x. k.time x.1) e)),
        )
        go w h (raised x) w' e = λ f. runs.select_raises w (ap (λ y. y.0) e ∙ ap raised f)

    -- what is looked at next
    abbrev Next : ℕ → Step → k.World → Type 0
    Next m (look t []) w = At (suc m) t w
    Next m (look t (b ∷ bs)) w = ⊥
    Next m (again t bytes) w = ⊥

    recv_one :
        (m : ℕ) (t : Text)
        → Triple (Selected m t true) (do r ← k.recv; lift (take_received k t [] r)) (Next m) NotFuel
    unfolding take_received lift
    recv_one m t =
        Triple-bind
          {R = λ r w''.
            (w' : k.World) × Selected m t true w'
            × (k.recv w' ≡ (returned r, w''))
            × (suc m ≤ k.time w'')}
          _ _ (record { at = λ w h. go w h (k.recv w).0 (k.recv w).1 refl }) λ r. taken r
      where
        go :
            (w : k.World)
            → Selected m t true w
            → (r : Outcome Received) (w' : k.World) → k.recv w ≡ (r, w')
            → Post
                (λ r w''.
                  (w' : k.World) × Selected m t true w'
                  × (k.recv w' ≡ (returned r, w''))
                  × (suc m ≤ k.time w''))
                NotFuel
                r
                w'
        go w h (returned r) w' e =
            (w, h, e, (let l = runs.recv_takes w in ground (arith, l, h.3, ap (λ x. k.time x.1) e)))
        go w h (raised x) w' e = λ f. runs.recv_raises w (ap (λ y. y.0) e ∙ ap raised f)

        taken :
            (r : Received)
            → Triple
                (λ w''.
                  (w' : k.World) × Selected m t true w'
                  × (k.recv w' ≡ (returned r, w''))
                  × (suc m ≤ k.time w''))
                (lift (take_received k t [] r))
                (Next m)
                NotFuel
        taken (decoded u) = record { at = λ w h. (heard h.1.1 h.1.2 h.2, h.3) }
        taken timed_out = record { at = λ w h. (missed h.1.1 h.1.2 h.2, h.3) }
        taken (undecodable bytes) = record {
          at = λ w h. absurd (runs.decodes h.0 bytes (ap (λ y. y.0) h.2));
        }

    answered :
        (m : ℕ) (t : Text) (ready : Bool)
        → Triple
            (Selected m t ready)
            (if ready then (do r ← k.recv; lift (take_received k t [] r)) else pure (look t []))
            (Next m)
            NotFuel
    answered m t true = recv_one m t
    answered m t false = Triple-pure (look t []) λ w h. (idle h.1 h.2, h.3)

    -- The answer is what was received before the first prompt.
    abbrev pub Answered : Text → Text → k.World → Type 0
    Answered prompt answer w =
        (t : Text) × (rest : Text) × Heard t w × (cut prompt t ≡ some (answer, rest))

    -- the search for the prompt, before the rest of the loop
    looked :
        (deadline m : ℕ) (prompt u : Text) (rest : Method k.World Text)
        → ((now : ℕ)
            → ltb deadline now ≡ false
            → Triple (λ w. At (suc m) u w × (k.time w ≡ now)) rest (Answered prompt) NotFuel)
        → Triple
            (At (suc m) u)
            (option_case
              (cut prompt u)
              (do
                now ← gets k.time
                if ltb deadline now
                    then raise (timeout_error "Timeout waiting for command output")
                    else rest)
              (λ r. pure r.0))
            (Answered prompt)
            NotFuel
    looked deadline m prompt u rest ok =
        Triple-option (cut prompt u) _ _
          (λ e. Triple-gets _ _ λ now.
            Triple-if (ltb deadline now) (raise _) rest (λ y. Triple-raise _ λ w h f. absurd (cc f))
              (λ n. ok now n))
          (λ r e. Triple-pure r.0 λ w h. (u, r.1, h.0, e))

    read_prompt-Answered :
        (fuel deadline m : ℕ) (prompt t : Text)
        → deadline ≤ m + fuel
        → Triple (At m t) (read_prompt k (suc fuel) deadline prompt t []) (Answered prompt) NotFuel
    unfolding read_prompt
    read_prompt-Answered zero deadline m prompt t l =
        Triple-bind _ _ (select_one m t)
          λ ready. Triple-bind _ _ (answered m t ready) λ step. by_step step
      where
        by_step :
            (step : Step)
            → Triple
                (Next m step)
                (elim step as (λ x. Method k.World Text) [
                  | again output bytes ↦ read_prompt k 0 deadline prompt output bytes
                  | look output bytes ↦
                      option_case
                        (cut prompt output)
                        (do
                          now ← gets k.time
                          if ltb deadline now
                              then raise (timeout_error "Timeout waiting for command output")
                              else read_prompt k 0 deadline prompt output bytes)
                        λ r. pure r.0
                ])
                (Answered prompt)
                NotFuel
        by_step (look u []) =
            looked deadline m prompt u _
              λ now n. record { at = λ w h. absurd (ground (arith, h.0.1, h.1, n, l)) }
        by_step (look u (b ∷ bs)) = record { at = λ w h. absurd h }
        by_step (again u bytes) = record { at = λ w h. absurd h }
    read_prompt-Answered (suc fuel) deadline m prompt t l =
        Triple-bind _ _ (select_one m t) λ ready. Triple-bind _ _ (answered m t ready) λ step.
          by_step (λ u. read_prompt-Answered fuel deadline (suc m) prompt u (omega arith)) step
      where
        by_step :
            ((u : Text)
              → Triple
                  (At (suc m) u)
                  (read_prompt k (suc fuel) deadline prompt u [])
                  (Answered prompt)
                  NotFuel)
            → (step : Step)
            → Triple
                (Next m step)
                (elim step as (λ x. Method k.World Text) [
                  | again output bytes ↦ read_prompt k (suc fuel) deadline prompt output bytes
                  | look output bytes ↦
                      option_case
                        (cut prompt output)
                        (do
                          now ← gets k.time
                          if ltb deadline now
                              then raise (timeout_error "Timeout waiting for command output")
                              else read_prompt k (suc fuel) deadline prompt output bytes)
                        λ r. pure r.0
                ])
                (Answered prompt)
                NotFuel
        by_step ih (look u []) =
            looked deadline m prompt u _ λ now n. Triple-strengthen _ (ih u) λ w h. h.0
        by_step ih (look u (b ∷ bs)) = record { at = λ w h. absurd h }
        by_step ih (again u bytes) = record { at = λ w h. absurd h }

    -- On a socket whose clock runs on and whose bytes can be decoded, with a round for each tick of the
    -- timeout and one more, _read does not use its rounds up; what it returns is the answer taken out of
    -- what was received, since it began, before the first prompt.
    pub read-Answered :
        (prompt : Text) (timeout : ℕ) (echo : Option Text)
        → Triple
            (λ w. w ≡ start)
            (read k (suc (timeout * k.second)) prompt timeout echo)
            (λ answer w. (t : Text) × Answered prompt t w × (answer ≡ clean echo t))
            NotFuel
    unfolding read
    read-Answered prompt timeout echo = Triple-gets _ _ λ now.
        Triple-bind _ _
          (Triple-strengthen _
            (read_prompt-Answered (timeout * k.second) (now + timeout * k.second) now prompt []
              (omega arith))
            λ w h. (subst (Heard []) (sym h.0) nothing, omega (arith, h.1)))
          λ t. Triple-pure (clean echo t) λ w h. (t, h, refl)
