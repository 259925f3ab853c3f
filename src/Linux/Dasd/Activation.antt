-- ===== src/Linux/Dasd/Activation.antt =====
-- What DiskDasd.activate has established when it returns.
use tessia_baselib.Prelude.{ℕ, ◌≡◌, List, ◌∷◌, Text, String, some, ◌⊎◌}
use tessia_baselib.Python.{Error, runtime_error, Outcome, returned, raised}
use tessia_baselib.Python.Rules.{Post, Triple}
use tessia_baselib.Linux.Host.{Host}
use tessia_baselib.Linux.Timer.{timer, succeeds}
use tessia_baselib.Linux.Timer.Poll.{Ended, Missed, timer_polled, succeeds_lem}

module _ (h : Host) where
  -- The last command run was `cmd`, and it ended with exit status 0.
  pub record JustSucceeded (shell : h.Shell) (cmd : Text) (w : h.World) : Type 0 where
    pub before : h.World
    pub output : Text
    pub ran : h.run shell cmd before ≡ (returned (0, output), w)

  abbrev pub Always : h.World → Type 0
  Always w = Unit

  abbrev pub Any : Error → h.World → Type 0
  Any e w = Unit

  timer-Post :
      (shell : h.Shell) (cmd : Text) (n : ℕ) (ns : List ℕ) (message : String) (w : h.World)
      (r : Outcome (Unit {0})) (w' : h.World)
      → Post
          (λ u w'. Ended h (succeeds h shell cmd) (n ∷ ns) w (returned (some tt)) w')
          (λ e w'.
            ((e ≡ runtime_error message) × Missed h (succeeds h shell cmd) (n ∷ ns) w w')
            ⊎ Ended h (succeeds h shell cmd) (n ∷ ns) w (raised e) w')
          r
          w'
      → Post (λ u. JustSucceeded shell cmd) Any r w'
  timer-Post shell cmd n ns message w (raised e) w' k = tt
  timer-Post shell cmd n ns message w (returned u) w' k =
      let (out, ran) = succeeds_lem h shell cmd (h.sleep k.time k.last) w' tt k.attempted in
      record { before = h.sleep k.time k.last; output = out; ran = ran }

  -- `timer` returns only when its command has just ended with exit status 0.
  pub timer-JustSucceeded :
      (shell : h.Shell) (cmd : Text) (n : ℕ) (ns : List ℕ) (message : String)
      → Triple Always (timer h shell cmd (n ∷ ns) message) (λ u. JustSucceeded shell cmd) Any
  timer-JustSucceeded shell cmd n ns message = record {
    at = λ w a.
        timer-Post shell cmd n ns message w (timer h shell cmd (n ∷ ns) message w).0
          (timer h shell cmd (n ∷ ns) message w).1 (timer_polled h shell cmd n ns message w);
  }
