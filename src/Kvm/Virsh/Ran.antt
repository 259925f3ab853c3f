-- ===== src/Kvm/Virsh/Ran.antt =====
-- What the methods of Virsh have run when they return (kvm/virsh.py).
use tessia_baselib.Prelude.{
  ℕ, ◌+◌, ◌*◌, ◌≤◌, ◌==◌, ◌≡◌, ◌≢◌, refl, true, Option, none, some, ◌++◌, String, Text, lit, ap,
  ◌∙◌, arith,
}
use tessia_baselib.Python.{
  Error, runtime_error, not_implemented, out_of_fuel, is_runtime, Outcome, returned, raised, Method,
  pure, raise, except_runtime, handle, ◌>>=◌, ◌>>◌,
}
use tessia_baselib.Python.Rules.{
  Post, Triple, Triple-pure, Triple-raise, Triple-if, Triple-bind, Triple-gets, Triple-strengthen,
  Triple-weaken,
}
use tessia_baselib.Linux.Host.{Host}
use tessia_baselib.Kvm.Virsh.{
  Services, Virsh, State, on_host, channel, run, set_tmp_dir, clean_tmp_dir, raise_and_cleanup,
  virsh_command, get_dominfo,
}
use tessia_baselib.Kvm.Virsh.Dominfo.{parse_dominfo}

-- Any error but the model's own.
abbrev pub NotFuel : {S : Type 0} → Error → S → Type 0
NotFuel e s = e ≢ out_of_fuel

-- The clock runs on: a command does not turn it back, and a sleep takes as long as it says. The
-- connection raises errors of its own, not that of the model.
pub record ClockRuns {h : Host} (services : Services h) : Type 0 where
  pub run_takes :
      (shell : h.Shell) (cmd : Text) (w : h.World)
      → services.monotonic w ≤ services.monotonic (h.run shell cmd w).1
  pub sleep_takes :
      (n : ℕ) (w : h.World) → services.monotonic w + n * 1000 ≤ services.monotonic (h.sleep n w)
  pub run_raises :
      (shell : h.Shell) (cmd : Text) (w : h.World) → (h.run shell cmd w).0 ≢ raised out_of_fuel

module _ {S A : Type 0} {P : S → Type 0} {Q : A → S → Type 0} where
  -- `except RuntimeError: raise RuntimeError(msg)`
  pub Triple-except :
      (m : Method S A) (msg : String)
      → Triple P m Q NotFuel
      → Triple P (except_runtime m (raise (runtime_error msg))) Q NotFuel
  unfolding raise
  Triple-except m msg t = record { at = λ s p. go (m s).0 (m s).1 (t.at s p) }
    where
      go :
          (r : Outcome A) (s : S)
          → Post Q NotFuel r s
          → Post Q NotFuel
              (handle is_runtime (raise (runtime_error msg)) r s).0
              (handle is_runtime (raise (runtime_error msg)) r s).1
      go (returned a) s k = k
      go (raised (runtime_error m)) s k = λ e. cc
      go (raised (not_implemented m)) s k = λ e. cc
      go (raised e) s k = k

module _ (h : Host) (services : Services h) (clock : ClockRuns services) where
  abbrev pub Since : ℕ → State h → Type 0
  Since m s = m ≤ services.monotonic s.1

  -- The last command run was `cmd`, which gave `r`.
  pub record Ran (cmd : Text) (r : ℕ × Text) (s : State h) : Type 0 where
    pub before : h.World
    pub shell : h.Shell
    pub has_shell : s.0.cmd_channel ≡ some shell
    pub ran : h.run shell cmd before ≡ (returned r, s.1)

  abbrev pub RanSince : ℕ → Text → (ℕ × Text) → State h → Type 0
  RanSince m cmd r s = Ran cmd r s × Since m s

  run_on :
      (m : ℕ) (cmd : Text) (v : Virsh h) (w : h.World) (shell : h.Shell)
      → v.cmd_channel ≡ some shell
      → m ≤ services.monotonic w
      → (r : Outcome (ℕ × Text)) (w' : h.World) → h.run shell cmd w ≡ (r, w')
      → Post (RanSince m cmd) NotFuel (run h cmd (v, w)).0 (run h cmd (v, w)).1
  unfolding run channel on_host ◌>>=◌
  run_on m cmd v w shell c p (returned a) w' e =
      let takes = clock.run_takes shell cmd w in
      rw (c, e)
        (
          record { before = w; shell = shell; has_shell = refl; ran = e },
          (let l : services.monotonic w ≤ services.monotonic w' = rw (← ap (λ x. x.1) e) takes in
              omega arith),
        )
  run_on m cmd v w shell c p (raised x) w' e =
      rw (c, e) (λ f. clock.run_raises shell cmd w (ap (λ y. y.0) e ∙ ap raised f))

  run-Post :
      (m : ℕ) (cmd : Text) (v : Virsh h) (w : h.World) (o : Option h.Shell)
      → v.cmd_channel ≡ o
      → m ≤ services.monotonic w
      → Post (RanSince m cmd) NotFuel (run h cmd (v, w)).0 (run h cmd (v, w)).1
  unfolding run channel on_host ◌>>=◌
  run-Post m cmd v w none c p = rw c (λ e. cc)
  run-Post m cmd v w (some shell) c p =
      run_on m cmd v w shell c p (h.run shell cmd w).0 (h.run shell cmd w).1 refl

  pub run-Ran : (m : ℕ) (cmd : Text) → Triple (Since m) (run h cmd) (RanSince m cmd) NotFuel
  run-Ran m cmd = record { at = λ s p. run-Post m cmd s.0 s.1 s.0.cmd_channel refl p }

  run-NotFuel : {P : State h → Type 0} (cmd : Text) → Triple P (run h cmd) (λ r s. Unit) NotFuel
  run-NotFuel cmd = record {
    at = λ s p. (Triple-weaken (run h cmd) (run-Ran 0 cmd) (λ a t k. tt)).at s (omega arith);
  }

  Ran-zero :
      (cmd : Text) (r : ℕ × Text) (s : State h)
      → (r.0 == 0) ≡ true
      → Ran cmd r s
      → Ran cmd (0, r.1) s
  Ran-zero cmd r s y k = record {
    before = k.before;
    shell = k.shell;
    has_shell = k.has_shell;
    ran = ground (arith, k.ran);
  }

  pub get_dominfo-Ran :
      (m : ℕ) (d : Text)
      → Triple
          (Since m)
          (get_dominfo h d)
          (λ info s.
            ((out : Text) × Ran (lit "virsh dominfo " ++ d) (0, out) s × (info ≡ parse_dominfo out))
            × Since m s)
          NotFuel
  unfolding get_dominfo
  get_dominfo-Ran m d = Triple-bind _ _ (run-Ran m _) λ r.
      Triple-if (r.0 == 0) (pure (parse_dominfo r.1)) (raise _)
        (λ y. Triple-pure _ λ s k. ((r.1, Ran-zero _ r s y k.0, refl), k.1))
        (λ n. Triple-raise _ λ s k e. cc)

  clean_tmp_dir-NotFuel : {P : State h → Type 0} → Triple P (clean_tmp_dir h) (λ u s. Unit) NotFuel
  unfolding clean_tmp_dir
  clean_tmp_dir-NotFuel = Triple-gets _ _ λ d. Triple-strengthen _ (clean d) λ s p. tt
    where
      clean :
          (d : Option Text)
          → Triple
              (λ s. Unit)
              (elim d as (λ x. Method (State h) (Unit {0})) [
                | none ↦ pure tt
                | some dir ↦ (do run h (lit "rm -rf " ++ dir); set_tmp_dir h none)
              ])
              (λ u s. Unit)
              NotFuel
      clean none = Triple-pure tt λ s k. tt
      clean (some dir) = Triple-bind _ _ (run-NotFuel _) λ r. record { at = λ s p. tt }

  pub virsh_command-Ran :
      (m : ℕ) (c a : Text) (msg : String)
      → Triple
          (Since m)
          (virsh_command h c a msg)
          (λ u s.
            ((out : Text) × Ran (lit "virsh " ++ (c ++ (lit " " ++ a))) (0, out) s) × Since m s)
          NotFuel
  unfolding virsh_command raise_and_cleanup
  virsh_command-Ran m c a msg = Triple-bind _ _ (run-Ran m _) λ r.
      Triple-if (r.0 == 0) (pure tt) (raise_and_cleanup h msg)
        (λ y. Triple-pure _ λ s k. ((r.1, Ran-zero _ r s y k.0), k.1))
        (λ n. Triple-bind _ _ clean_tmp_dir-NotFuel λ u. Triple-raise _ λ s k e. cc)
