-- ===== src/Ssh/Shell.antt =====
-- SshShell (tessia/baselib/common/ssh/shell.py): commands and their answers over a socket. The socket,
-- the clock, the codec and uuid4 are parameters; bytes are numbers.
pub mod Extract
pub mod Reading
pub mod Endless
use tessia_baselib.Prelude.{
  ℕ, zero, suc, ◌+◌, ◌*◌, ◌-◌, ◌==◌, ltb, leb, Bool, true, false, not, ◌&&◌, ◌||◌, Option, none,
  some, List, [], ◌∷◌, ◌++◌, Text, lit, text_eq, length, starts_with, strip, drop, if◌then◌else◌,
}
use tessia_baselib.Python.{
  Error, ssh_error, timeout_error, out_of_fuel, Outcome, returned, raised, Method, pure, raise,
  lift, gets, modify, option_case, ◌>>=◌, ◌>>◌,
}

-- What `str(socket.recv(1024), 'utf-8')` comes to: a text, a timeout, or bytes that are not UTF-8.
pub data Received : Type 0 where
  decoded : Text → Received
  timed_out : Received
  undecodable : List ℕ → Received

-- Times are in ticks, `second` of them in a second.
pub record Socket : Type 1 where
  pub World : Type 0
  pub second : ℕ
  pub time : World → ℕ
  -- select.select([socket], [], [], 0.1)
  pub select : Method World Bool
  pub recv : Method World Received
  pub send_ready : Method World Bool
  pub send : List ℕ → Method World ℕ
  pub close : Method World (Unit {0})
  pub encode : Text → List ℕ
  pub decode : List ℕ → Option Text
  pub uuid4 : Method World Text

-- The text before the first place where `p` is found, and the text after it.
unfoldable pub cut : Text → Text → Option (Text × Text)
unfolding starts_with
cut p [] = if text_eq p [] then some ([], []) else none
cut p (c ∷ cs) =
    let rest = cut p cs in
    if starts_with (c ∷ cs) p
    then some ([], drop (length p) (c ∷ cs))
    else option_case rest none λ r. some (c ∷ r.0, r.1)

-- t.replace('\r\n', '\n')
unfoldable pub unix_lines : Text → Text
unix_lines [] = []
unix_lines (a ∷ []) = a ∷ []
unix_lines (a ∷ (b ∷ cs)) =
    let joined = unix_lines cs in
    let next = unix_lines (b ∷ cs) in if (a == 13) && (b == 10) then 10 ∷ joined else a ∷ next

-- what is after the echo of a command, if it is found
unfoldable pub remove_echo : Option Text → Text → Text
unfolding cut
remove_echo none output = output
remove_echo (some echo) output = option_case (cut echo output) output λ r. r.1

-- the answer, from what was read before the prompt
unfoldable pub clean : Option Text → Text → Text
unfolding unix_lines remove_echo
clean echo output = remove_echo echo (unix_lines output)

digits : ℕ → Text → Option ℕ
digits n [] = some n
digits n (c ∷ cs) = if leb b'0' c && leb c b'9' then digits (n * 10 + (c - 48)) cs else none

some_digits : Text → Option ℕ
some_digits [] = none
some_digits (c ∷ cs) = digits 0 (c ∷ cs)

-- int(t), of a text without sign and underscores
unfoldable pub parse_int : Text → Option ℕ
unfolding some_digits digits
parse_int t = some_digits (strip t)

-- `if not cmd.endswith('\n'): cmd += '\n'`
unfoldable pub with_newline : Text → Text
with_newline [] = 10 ∷ []
with_newline (c ∷ []) = if c == 10 then c ∷ [] else c ∷ (10 ∷ [])
with_newline (c ∷ (d ∷ ds)) = c ∷ with_newline (d ∷ ds)

-- `output` and `byte_buffer` of a read; whether the prompt is looked for next, or `continue` was taken
pub data Step : Type 0 where
  look : Text → List ℕ → Step
  again : Text → List ℕ → Step

module _ (k : Socket) where
  -- what is done with one thing received
  unfoldable pub take_received : Text → List ℕ → Received → Outcome Step
  take_received output [] (decoded t) = returned (look (output ++ t) [])
  take_received output (b ∷ bs) (decoded t) =
      raised (ssh_error "Incorrect unicode character was received")
  take_received output bytes timed_out = returned (look output bytes)
  take_received output [] (undecodable new) = returned (again output new)
  take_received output (b ∷ bs) (undecodable new) =
      option_case (k.decode ((b ∷ bs) ++ new)) (returned (again output ((b ∷ bs) ++ new)))
        λ t. returned (look (output ++ t) [])

  -- the loop of _read, with at most `fuel` rounds
  unfoldable pub read_prompt : ℕ → ℕ → Text → Text → List ℕ → Method k.World Text
  unfolding take_received cut
  read_prompt zero deadline prompt output bytes = raise out_of_fuel
  read_prompt (suc fuel) deadline prompt output bytes = do
    ready ← k.select
    step ←
        if ready
        then (do r ← k.recv; lift (take_received output bytes r))
        else pure (look output bytes)
    elim step [
      | again output bytes ↦ read_prompt fuel deadline prompt output bytes
      | look output bytes ↦
          option_case (cut prompt output)
            (do
              now ← gets k.time
              if ltb deadline now
                  then raise (timeout_error "Timeout waiting for command output")
                  else read_prompt fuel deadline prompt output bytes)
            λ r. pure r.0
    ]

  unfoldable pub read : ℕ → Text → ℕ → Option Text → Method k.World Text
  unfolding read_prompt clean
  read fuel prompt timeout echo = do
    start ← gets k.time
    output ← read_prompt fuel (start + timeout * k.second) prompt [] []
    pure (clean echo output)

  -- the loop of _write, with at most `fuel` rounds
  unfoldable pub write_rest : ℕ → ℕ → ℕ → List ℕ → Method k.World (Unit {0})
  write_rest zero deadline counter content = raise out_of_fuel
  write_rest (suc fuel) deadline counter content = do
    ready ← k.send_ready
    sent ← if ready then k.send (drop counter content) else (do
      now ← gets k.time
      if ltb deadline now then raise (timeout_error "Timeout waiting to send command") else pure 0)
    if leb (length content) (counter + sent)
        then pure tt
        else write_rest fuel deadline (counter + sent) content

  -- the default of `timeout` in _write is 60 seconds
  unfoldable pub write : ℕ → Text → Method k.World (Unit {0})
  unfolding write_rest
  write fuel content = do
    start ← gets k.time
    write_rest fuel (start + 60 * k.second) 0 (k.encode content)

  unfoldable pub run : ℕ → Text → Text → ℕ → Bool → Method k.World (ℕ × Text)
  unfolding read write with_newline parse_int
  run fuel prompt cmd timeout ignore_ret = do
    write fuel (lit "\n")
    read fuel prompt timeout none
    write fuel (with_newline cmd)
    if ignore_ret then pure (0, []) else (do
      output ← read fuel prompt timeout (some (with_newline cmd))
      write fuel (lit "echo $?\n")
      status ← read fuel prompt timeout (some (lit "echo $?\n"))
      option_case (parse_int status) (raise (ssh_error "Failed to parse command return status: {}"))
          λ exit_code. pure (exit_code, output))

  handle_close : Outcome (Unit {0}) → Method k.World (Unit {0})
  handle_close r w = (returned tt, w)

  -- a close does not raise
  unfoldable pub close_shell : Method k.World (Unit {0})
  unfolding handle_close
  close_shell w = let (r, w') = k.close w in handle_close r w'

  -- the command that sets the prompt: the prompt is not in it
  unfoldable pub prompt_command : Text → Text
  prompt_command prompt =
      lit "prompt_end=\":\"; export PS1=\"" ++ (prompt ++ lit "$prompt_end\"; unset prompt_end")

  -- the constructor: the prompt that the shell has from now on
  unfoldable pub new_shell : ℕ → Method k.World Text
  unfolding read write run prompt_command
  new_shell fuel = do
    write fuel (lit "\n")
    read fuel (lit "\n") 120 none
    id ← k.uuid4
    write fuel (prompt_command id ++ lit "\n")
    read fuel (id ++ lit ":") 120 none
    run fuel (id ++ lit ":")
        (lit "export SYSTEMD_PAGER=; export LC_ALL=en_US.UTF-8; locale charmap") 120 false
    pure (id ++ lit ":")
