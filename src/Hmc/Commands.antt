-- ===== src/Hmc/Commands.antt =====
-- Sending commands to a guest, each after the prompt that it waits for:
-- HypervisorHmc._send_commands (hypervisors/hmc/hmc.py). The chunks of a command are in Chunks.
pub mod Dialogue
use tessia_baselib.Prelude.{
  ℕ, zero, suc, ◌+◌, ◌*◌, ◌==◌, ltb, Bool, true, false, ◌&&◌, ◌||◌, List, [], ◌∷◌, ◌++◌, map, Text,
  lit, text_eq, if◌then◌else◌,
}
use tessia_baselib.Python.{timeout_error, out_of_fuel, Method, pure, raise, gets, ◌>>=◌, ◌>>◌}
use tessia_baselib.Hmc.Client.{Client, Guest}
use tessia_baselib.Hmc.Chunks.{string_to_chunks}
use tessia_baselib.Hmc.Terminal.{Message, Terminal}

-- A command that waits for the default prompt, or a pattern to wait for and a command.
pub data Command : Type 0 where
  plain : Text → Command
  awaiting : Text → Text → Command

-- MESSAGES_DEFAULT_PATTERN
abbrev default_pattern : Text
default_pattern = lit "debirf-rescue:~#\\s*$"

-- _get_cmd
unfoldable pub pattern_and_command : Command → Text × Text
pattern_and_command (plain cmd) = (default_pattern, cmd)
pattern_and_command (awaiting pattern cmd) = (pattern, cmd)

-- OS_MESSAGES_TIMEOUT and the timeout of one read, in seconds
abbrev pub os_messages_timeout : ℕ
os_messages_timeout = 600

abbrev pub read_timeout : ℕ
read_timeout = 60

module _ {z : Client} (t : Terminal z) where
  -- a message of the system in which the pattern is found
  unfoldable pub any_match : Text → List Message → Bool
  any_match pattern [] = false
  any_match pattern (m ∷ ms) =
      text_eq m.type (lit "OS message") && t.search pattern m.text || any_match pattern ms

  unfoldable pub send_chunks : Guest z → List Text → Method z.World (Unit {0})
  send_chunks g [] = pure tt
  send_chunks g (c ∷ cs) = do t.send_os_command g c; send_chunks g cs

  module _ (g : Guest z) (r : t.Receiver) where
    -- the loop of `while`, with at most `fuel` rounds; it ends when no command is left
    unfoldable pub answer_prompts : ℕ → ℕ → List (Text × Text) → Method z.World (Unit {0})
    unfolding any_match send_chunks string_to_chunks
    answer_prompts fuel timeout [] = pure tt
    answer_prompts zero timeout (p ∷ ps) = raise out_of_fuel
    answer_prompts (suc fuel) timeout (p ∷ ps) = do
      now ← gets t.monotonic
      if ltb now timeout
          then (do
            messages ← t.get_messages r (read_timeout * t.second)
            if any_match p.0 messages
                then (do send_chunks g (string_to_chunks p.1); answer_prompts fuel timeout ps)
                else answer_prompts fuel timeout (p ∷ ps))
          else pure tt

    -- the first command is sent at once where its pattern is empty
    unfoldable pub send_first : ℕ → ℕ → List (Text × Text) → Method z.World (Unit {0})
    unfolding answer_prompts
    send_first fuel timeout [] = pure tt
    send_first fuel timeout (([], cmd) ∷ ps) = do
      send_chunks g (string_to_chunks cmd)
      answer_prompts fuel timeout ps
    send_first fuel timeout ((c ∷ cs, cmd) ∷ ps) = answer_prompts fuel timeout ((c ∷ cs, cmd) ∷ ps)

    unfoldable pub send_commands : ℕ → List Command → Method z.World (Unit {0})
    unfolding send_first pattern_and_command
    send_commands fuel [] = pure tt
    send_commands fuel (c ∷ cs) = do
      start ← gets t.monotonic
      send_first fuel (start + os_messages_timeout * t.second) (map pattern_and_command (c ∷ cs))
      now ← gets t.monotonic
      if ltb (start + os_messages_timeout * t.second) now
          then raise (timeout_error "Timed out communicating with OS Messages interface")
          else pure tt
