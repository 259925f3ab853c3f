-- ===== src/Ssh/Tests.antt =====
-- Runs of the shell on small sockets, and the theorems about it at concrete inputs.
use tessia_baselib.Prelude.{
  ℕ, suc, ◌*◌, ◌≡◌, refl, arith, true, false, none, some, [], ◌∷◌, ◌++◌, Text, lit, text_eq,
  starts_with, length, drop, strip, if◌then◌else◌,
}
use tessia_baselib.Python.{returned, pure, ◌>>=◌}
use tessia_baselib.Python.Rules.{Triple}
use tessia_baselib.Ssh.Shell.{Received, decoded, undecodable, Socket, clean, read, run}
use tessia_baselib.Ssh.Shell.Extract.{terminal_lines, NoReturn, clean-terminal_lines}
use tessia_baselib.Ssh.Shell.Reading.{SocketRuns, Answered, NotFuel, read-Answered}
use tessia_baselib.Ssh.Shell.Endless.{Garbles, has_ff, Loops, read-Loops}

abbrev prompt : Text
prompt = lit "p:"

-- It receives `what` each time it is read; the state is the clock.
abbrev socket : Received → Socket
socket what = record {
  World = ℕ;
  second = 1;
  time = λ w. w;
  select = λ w. (returned true, suc w);
  recv = pure what;
  send_ready = pure true;
  send = λ bytes. pure (length bytes);
  close = pure tt;
  encode = λ t. t;
  decode = λ bytes. if has_ff bytes then none else some bytes;
  uuid4 = pure (lit "p");
}

ls-NoReturn : NoReturn (lit "ls\n" ++ lit "a\n")
unfolding lit
ls-NoReturn = ground arith

clean-terminal_lines_example :
    clean (some (lit "ls\n")) (terminal_lines (lit "ls\n" ++ lit "a\n")) ≡ lit "a\n"
clean-terminal_lines_example = clean-terminal_lines (lit "ls\n") (lit "a\n") ls-NoReturn

socket-SocketRuns : SocketRuns (socket (decoded (lit "0\r\np:")))
unfolding pure
socket-SocketRuns = record {
  select_takes = λ w. omega arith;
  recv_takes = λ w. omega arith;
  select_raises = λ w e. ground arith;
  recv_raises = λ w e. ground arith;
  decodes = λ w bytes e. ground arith;
}

read-Answered_example :
    Triple
      (λ w. w ≡ 0)
      (read (socket (decoded (lit "0\r\np:"))) (suc (120 * 1)) prompt 120 none)
      (λ answer w.
        (t : Text) × Answered (socket (decoded (lit "0\r\np:"))) 0 socket-SocketRuns prompt t w
        × (answer ≡ clean none t))
      NotFuel
read-Answered_example =
    read-Answered (socket (decoded (lit "0\r\np:"))) 0 socket-SocketRuns prompt 120 none

-- A command that shows 0 ends with 0.
run_test :
    run (socket (decoded (lit "0\r\np:"))) 9 prompt (lit "ls") 120 false 0
    ≡ (returned (0, lit "0\n"), 3)
unfolding run ◌>>=◌ read text_eq starts_with lit drop strip
run_test = refl

socket-Garbles : Garbles (socket (undecodable (0xff ∷ [])))
unfolding pure has_ff
socket-Garbles = record {
  always_ready = λ w. refl;
  receives = λ w. (0xff ∷ [], refl, refl);
  decodes_none = λ bytes h. rw h refl;
}

read-Loops_example : Loops (read (socket (undecodable (0xff ∷ []))) 1000 prompt 120 none)
read-Loops_example = read-Loops socket-Garbles 1000 prompt 120 none
