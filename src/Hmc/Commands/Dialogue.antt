-- ===== src/Hmc/Commands/Dialogue.antt =====
-- What was read and sent when _send_commands ends (hypervisors/hmc/hmc.py).
use tessia_baselib.Prelude.{
  ℕ, suc, ◌+◌, ◌*◌, ◌≤◌, ◌<◌, ◌≡◌, ◌≢◌, ◌⊎◌, true, false, List, [], ◌∷◌, map, Text,
}
use tessia_baselib.Python.{Error, out_of_fuel, returned, raised, ◌>>=◌, ◌>>◌}
use tessia_baselib.Hmc.Client.{Client, Guest}
use tessia_baselib.Hmc.Chunks.{string_to_chunks}
use tessia_baselib.Hmc.Terminal.{Message, Terminal}
use tessia_baselib.Hmc.Commands.{
  Command, pattern_and_command, any_match, send_chunks, os_messages_timeout, read_timeout,
}

-- The clock of the terminal runs on: a read takes a tick or more, and a send does not turn it back. The
-- terminal raises errors of its own, not that of the model.
pub record TerminalRuns {z : Client} (t : Terminal z) : Type 0 where
  pub read_takes :
      (r : t.Receiver) (n : ℕ) (w : z.World) → t.monotonic w < t.monotonic (t.get_messages r n w).1
  pub send_takes :
      (g : Guest z) (c : Text) (w : z.World)
      → t.monotonic w ≤ t.monotonic (t.send_os_command g c w).1
  pub read_raises :
      (r : t.Receiver) (n : ℕ) (w : z.World) → (t.get_messages r n w).0 ≢ raised out_of_fuel
  pub send_raises :
      (g : Guest z) (c : Text) (w : z.World) → (t.send_os_command g c w).0 ≢ raised out_of_fuel

module _ {z : Client} {t : Terminal z} (runs : TerminalRuns t) (g : Guest z) (r : t.Receiver) where
  -- From `start`, where the commands `all` were to be sent, the commands `left` are to be sent now: each
  -- of the others was sent whole, in order, after a message in which its pattern was found; but the
  -- first may have been sent at once, if its pattern is empty.
  pub data Dialogue (all : List (Text × Text)) (start : z.World)
      : List (Text × Text) → z.World → Type 0 where
    at_start : Dialogue all start all start
    at_once :
        {cmd : Text} {left : List (Text × Text)} {w : z.World}
        → all ≡ ([], cmd) ∷ left
        → send_chunks t g (string_to_chunks cmd) start ≡ (returned tt, w)
        → Dialogue all start left w
    waited :
        {p : Text × Text} {left : List (Text × Text)} {w w' : z.World} {ms : List Message}
        → Dialogue all start (p ∷ left) w
        → t.get_messages r (read_timeout * t.second) w ≡ (returned ms, w')
        → any_match t p.0 ms ≡ false
        → Dialogue all start (p ∷ left) w'
    answered :
        {p : Text × Text} {left : List (Text × Text)} {w w' w'' : z.World} {ms : List Message}
        → Dialogue all start (p ∷ left) w
        → t.get_messages r (read_timeout * t.second) w ≡ (returned ms, w')
        → any_match t p.0 ms ≡ true
        → send_chunks t g (string_to_chunks p.1) w' ≡ (returned tt, w'')
        → Dialogue all start left w''

  abbrev NotFuel : Error → z.World → Type 0
  NotFuel e w = e ≢ out_of_fuel

  module _ (all : List (Text × Text)) (start : z.World) where
    -- Nothing is left, or it is too late.
    abbrev pub Over : ℕ → z.World → Type 0
    Over timeout w =
        (left : List (Text × Text)) × Dialogue all start left w
        × ((left ≡ []) ⊎ (timeout ≤ t.monotonic w))

    abbrev At : List (Text × Text) → ℕ → z.World → Type 0
    At left m w = Dialogue all start left w × (m ≤ t.monotonic w)

    -- what is known when a message has been read, and when a command has been sent after it
    abbrev Read : Text × Text → List (Text × Text) → ℕ → List Message → z.World → Type 0
    Read p left m ms w' =
        (w : z.World) × (At (p ∷ left) m w)
        × (t.get_messages r (read_timeout * t.second) w ≡ (returned ms, w'))
        × (suc m ≤ t.monotonic w')

  -- how long sending may take, in ticks
  abbrev pub limit : ℕ
  limit = os_messages_timeout * t.second

  -- In time, and nothing is left unless the clock stands at the timeout.
  abbrev pub Done : z.World → Command → List Command → z.World → Type 0
  Done start c cs w =
      (left : List (Text × Text)) × Dialogue (map pattern_and_command (c ∷ cs)) start left w
      × ((left ≡ []) ⊎ (t.monotonic w ≡ t.monotonic start + limit))
      × (t.monotonic w ≤ t.monotonic start + limit)
