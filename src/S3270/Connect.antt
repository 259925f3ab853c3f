-- ===== src/S3270/Connect.antt =====
-- `connect` of S3270 (common/s3270/s3270.py): that it ends, and what it has when it returns.
use tessia_baselib.Prelude.{
  ℕ, zero, suc, ◌+◌, ◌*◌, ◌≤◌, ◌<◌, ◌≡◌, ◌≢◌, refl, sym, ap, ◌∙◌, Bool, true, false, ltb, Option,
  none, some, String, Text, lit, has_part, arith, if◌then◌else◌,
}
use tessia_baselib.Python.{
  Error, timeout_error, attribute_error, out_of_fuel, Outcome, returned, raised, pure, raise, gets,
  modify, is_timeout, handle, option_case, ◌>>=◌,
}
use tessia_baselib.Python.Rules.{
  Post, Triple, Triple-pure, Triple-raise, Triple-if, Triple-bind, Triple-lift, Triple-gets,
  Triple-strengthen,
}
use tessia_baselib.S3270.{
  Connector, S3270, through, connect_to, judge, ask_connect, connect_loop, connect,
}

-- A connector whose clock runs on, a tick or more in each command, that raises errors of its own.
pub record ConnectorRuns (c : Connector) : Type 0 where
  pub run_takes : (cmd : Text) (n : ℕ) (w : c.World) → c.time w < c.time (c.run cmd n w).1
  pub run_raises : (cmd : Text) (n : ℕ) (w : c.World) → (c.run cmd n w).0 ≢ raised out_of_fuel

abbrev pub NotFuel : {S : Type 0} → Error → S → Type 0
NotFuel e s = e ≢ out_of_fuel

abbrev Ends : {S A : Type 0} → (A → S → Type 0) → Outcome A × S → Type 0
Ends Q x = Post Q NotFuel x.0 x.1

Post-by :
    {S A : Type 0} (Q : A → S → Type 0) (msg : String) (b : Bool) (e : Error) (s : S)
    → NotFuel e s
    → Ends Q (if b then (raised (timeout_error msg), s) else (raised e, s))
Post-by Q msg true e s h = λ f. cc f
Post-by Q msg false e s h = h

Post-timeout :
    {S A : Type 0} (Q : A → S → Type 0) (msg : String) (r : Outcome A) (s : S)
    → Post Q NotFuel r s
    → Ends Q (handle is_timeout (raise (timeout_error msg)) r s)
unfolding raise
Post-timeout Q msg (returned a) s h = h
Post-timeout Q msg (raised e) s h = Post-by Q msg (is_timeout e) e s h

module _ (c : Connector) (host : Text) where
  -- The answer that ended the connect: the process answered Connect with a status that has ok and no error.
  pub record Connected (output : Text) (s : S3270 c) : Type 0 where
    pub before : c.World
    pub status : Text
    pub answered : c.run (connect_to host) 180 before ≡ (returned (status, output), s.world)
    pub has_ok : has_part status (lit "ok") ≡ true
    pub no_error : has_part status (lit "error") ≡ false
    pub named : s.host_name ≡ some host

  abbrev At : ℕ → S3270 c → Type 0
  At m s = (s.host_name ≡ some host) × (m ≤ c.time s.world)

  -- an answer was read, and the clock is past m
  abbrev Answered : ℕ → Text × Text → S3270 c → Type 0
  Answered m a s =
      (w : c.World) × (c.run (connect_to host) 180 w ≡ (returned a, s.world)) × At (suc m) s

  module _ (runs : ConnectorRuns c) where
    through_run :
        (m : ℕ) → Triple (At m) (through c (c.run (connect_to host) 180)) (Answered m) NotFuel
    through_run m = record {
      at = λ s h.
          go s h (c.run (connect_to host) 180 s.world).0 (c.run (connect_to host) 180 s.world).1
            refl s.connector;
    }
      where
        go :
            (s : S3270 c)
            → At m s
            → (r : Outcome (Text × Text)) (w : c.World)
            → c.run (connect_to host) 180 s.world ≡ (r, w)
            → (b : Bool)
            → Ends (Answered m) (
                if b
                then (r, record s { world = w })
                else (raised (attribute_error "'NoneType' object has no attribute"), s))
        go s h (returned a) w e true = (
          s.world,
          e,
          (
            h.0,
            let l = runs.run_takes (connect_to host) 180 s.world in
                ground (arith, l, h.1, ap (λ x. c.time x.1) e),
          ),
        )
        go s h (raised x) w e true =
            λ f. runs.run_raises (connect_to host) 180 s.world (ap (λ y. y.0) e ∙ ap raised f)
        go s h r w e false = λ f. cc f

    ask : (m : ℕ) → Triple (At m) (ask_connect c host) (Answered m) NotFuel
    unfolding ask_connect
    ask m = record {
      at = λ s h.
          Post-timeout (Answered m) "Host is taking too long to answer"
            (through c (c.run (connect_to host) 180) s).0
            (through c (c.run (connect_to host) 180) s).1 ((through_run m).at s h);
    }

    judge-some :
        (status output out : Text)
        → judge status output ≡ returned (some out)
        → (out ≡ output)
          × (has_part status (lit "ok") ≡ true)
          × (has_part status (lit "error") ≡ false)
    unfolding judge
    judge-some status output out h = ground (arith, h)

    judge-raises :
        (status output : Text) (e : Error) → judge status output ≡ raised e → e ≢ out_of_fuel
    unfolding judge
    judge-raises status output e h f = ground (arith, h, f)

    loop :
        (fuel deadline : ℕ) (m : ℕ)
        → m ≤ deadline
        → deadline < m + fuel
        → Triple (At m) (connect_loop c fuel deadline host) Connected NotFuel
    unfolding connect_loop
    loop zero deadline m l n = absurd (omega arith)
    loop (suc fuel) deadline m l n = Triple-bind _ _ (ask m) λ answer.
        Triple-lift _ _ (λ found e. by_found (loop fuel deadline) answer found e)
          λ e s h k. judge-raises answer.0 answer.1 e h
      where
        by_found :
            ((m : ℕ)
              → m ≤ deadline
              → deadline < m + fuel
              → Triple (At m) (connect_loop c fuel deadline host) Connected NotFuel)
            → (answer : Text × Text) (found : Option Text)
            → judge answer.0 answer.1 ≡ returned found
            → Triple
                (Answered m answer)
                (option_case found
                  (do
                    now ← gets λ s. c.time s.world
                    if ltb deadline now
                        then raise (timeout_error "Timeout while connecting to {}")
                        else connect_loop c fuel deadline host)
                  pure)
                Connected
                NotFuel
        by_found ih answer none e = Triple-gets _ _ λ now.
            Triple-if (ltb deadline now) _ _ (λ h. Triple-raise _ λ s k f. cc f)
              λ h. record {
                at = λ s k.
                    (ih (suc m) (ground (arith, h, k.0.2.1, k.1)) (omega (arith, n))).at s k.0.2;
              }
        by_found ih answer (some out) e =
            (let j = judge-some answer.0 answer.1 out e in
              Triple-pure out λ s k. record {
                before = k.0;
                status = answer.0;
                answered = k.1 ∙ ap (λ t. (returned (answer.0, t), s.world)) (sym j.0);
                has_ok = j.1;
                no_error = j.2;
                named = k.2.0;
              })

    set_host :
        Triple {S = S3270 c}
          (λ s. Unit)
          (modify λ s. record s { host_name = some host })
          (λ u s. s.host_name ≡ some host)
          NotFuel
    unfolding modify
    set_host = record { at = λ s h. refl }

    -- On a connector whose clock runs on with each command and which does not raise the error of the model,
    -- connect with a round for each tick of the timeout and one more does not use its rounds up. When it
    -- returns, its output is that of an answer to Connect, given for the host it was asked for, whose
    -- status has ok and no error, and the host is remembered.
    pub connect-Connected :
        (timeout : ℕ)
        → Triple (λ s. Unit) (connect c (suc (timeout * c.second)) host timeout) Connected NotFuel
    unfolding connect
    connect-Connected timeout = Triple-bind _ _ set_host λ u. Triple-gets _ _ λ start.
        Triple-strengthen _
          (loop (suc (timeout * c.second)) (start + timeout * c.second) start (omega arith)
            (omega arith))
          λ s h. (h.0, ground (arith, h.1))
