-- ===== src/Linux/Timer.antt =====
-- Polling: the loops `for time in (…): sleep(time); …; break`, and `timer` of common/utils.py.
pub mod Poll
use tessia_baselib.Prelude.{
  ℕ, zero, suc, ◌==◌, Option, none, some, List, [], ◌∷◌, ◌++◌, String, Text, if◌then◌else◌,
}
use tessia_baselib.Python.{
  Error, runtime_error, unbound_local, Method, pure, raise, modify, ◌>>=◌, ◌>>◌,
}
use tessia_baselib.Linux.Host.{Host}

module _ (h : Host) where
  -- Sleep and try, until an attempt gives a value or the times are used up.
  unfoldable pub poll :
      {A : Type 0} → List ℕ → Method h.World (Option A) → Method h.World (Option A)
  poll [] attempt = pure none
  poll (n ∷ ns) attempt = do
    modify (h.sleep n)
    found ← attempt
    elim found [ none ↦ poll ns attempt | some a ↦ pure (some a) ]

  -- One round of `timer`: the command succeeds with exit status 0.
  unfoldable pub succeeds : h.Shell → Text → Method h.World (Option (Unit {0}))
  succeeds shell cmd = do result ← h.run shell cmd; pure (if result.0 == 0 then some tt else none)

  unfoldable pub timer_end : String → Option (Unit {0}) → Method h.World (Unit {0})
  timer_end message none = raise (runtime_error message)
  timer_end message (some done) = pure tt

  -- With no times the loop never binds `ret`.
  unfoldable pub timer : h.Shell → Text → List ℕ → String → Method h.World (Unit {0})
  unfolding succeeds timer_end
  timer shell cmd [] message = raise (unbound_local "ret")
  timer shell cmd (n ∷ ns) message = do
    done ← poll (n ∷ ns) (succeeds shell cmd)
    timer_end message done
