-- ===== src/S3270/Pipe/Endless.antt =====
-- A write to a process that reports no event has no end (common/s3270/s3270pipeconnector.py).
use tessia_baselib.Prelude.{
  ℕ, zero, suc, ◌+◌, ◌*◌, ◌≡◌, refl, false, List, [], ◌∷◌, ◌++◌, Text, lit, if◌then◌else◌,
}
use tessia_baselib.Python.{out_of_fuel, Outcome, returned, raised, pure, ◌>>=◌}
use tessia_baselib.Python.Rules.{
  Post, Triple, Triple-raise, Triple-bind, Triple-gets, Triple-strengthen,
}
use tessia_baselib.Ssh.Shell.Endless.{Loops}
use tessia_baselib.S3270.Pipe.{Event, Process, write_events, write_loop, write_cmd}

-- Neither pipe of the process is ever ready.
abbrev pub IsSilent : Process → Type 0
IsSilent p = (w : p.World) → (p.poll w).0 ≡ returned []

module _ (p : Process) (silent : IsSilent p) where
  poll_silent : Triple (λ w. Unit) p.poll (λ events w. events ≡ []) (λ e w. e ≡ out_of_fuel)
  poll_silent = record { at = λ w h. go (p.poll w).0 (p.poll w).1 (silent w) }
    where
      go :
          (r : Outcome (List Event)) (w : p.World)
          → r ≡ returned []
          → Post (λ events w. events ≡ []) (λ e w. e ≡ out_of_fuel) r w
      go (returned a) w e = cc e
      go (raised x) w e = absurd (cc e)

  none_written :
      (fuel deadline : ℕ) (cmd : List ℕ)
      → Loops (write_loop p fuel deadline cmd)
      → (events : List Event)
      → Triple
          (λ w. events ≡ [])
          (do
            done ← write_events p deadline cmd events false
            if done then pure tt else write_loop p fuel deadline cmd)
          (λ u w. ⊥)
          (λ e w. e ≡ out_of_fuel)
  unfolding write_events ◌>>=◌
  none_written fuel deadline cmd ih [] = record { at = λ w h. ih.at w tt }
  none_written fuel deadline cmd ih (e ∷ es) = record { at = λ w h. absurd (cc h) }

  write_loop-Loops : (fuel deadline : ℕ) (cmd : List ℕ) → Loops (write_loop p fuel deadline cmd)
  unfolding write_loop
  write_loop-Loops zero deadline cmd = Triple-raise _ λ w h. refl
  write_loop-Loops (suc fuel) deadline cmd =
      Triple-bind _ _ poll_silent
        λ events. none_written fuel deadline cmd (write_loop-Loops fuel deadline cmd) events

  -- On a process neither pipe of which is ever ready, _write stays in its loop, whatever its timeout and
  -- however late it is: any number of rounds is used up, since the clock is looked at only for an event.
  pub write_cmd-Loops : (fuel : ℕ) (cmd : Text) (timeout : ℕ) → Loops (write_cmd p fuel cmd timeout)
  unfolding write_cmd
  write_cmd-Loops fuel cmd timeout = Triple-gets _ _ λ now.
      Triple-strengthen _
        (write_loop-Loops fuel (now + timeout * p.second) (p.encode (cmd ++ lit "\n"))) λ w h. tt
