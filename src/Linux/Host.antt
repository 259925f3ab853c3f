-- ===== src/Linux/Host.antt =====
-- The system at the other end of a connection, which the drivers run commands on. It is outside the
-- repository's logic: a state, and what a shell, a command and the passing of time do to it.
use tessia_baselib.Prelude.{ℕ, Text}
use tessia_baselib.Python.{Method}

pub record Host : Type 1 where
  pub World : Type 0
  pub Shell : Type 0
  -- `open_shell()`, and `close()` of a shell
  pub open_shell : Method World Shell
  pub close : Shell → Method World (Unit {0})
  -- `run(cmd)`: the exit status and the output; a lost connection raises
  pub run : Shell → Text → Method World (ℕ × Text)
  -- `sleep(seconds)`, and `sleep(0.5)`
  pub sleep : ℕ → World → World
  pub sleep_half : World → World
