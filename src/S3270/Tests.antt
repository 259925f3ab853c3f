-- ===== src/S3270/Tests.antt =====
-- A connector that is busy at first, and the commands of S3270 over it.
use tessia_baselib.Prelude.{
  false, some, split, last, ℕ, suc, ◌==◌, ◌≡◌, refl, arith, true, none, [], ◌∷◌, lit, text_eq,
  has_part, starts_with, if◌then◌else◌,
}
use tessia_baselib.Python.{returned, pure, ◌>>=◌}
use tessia_baselib.Python.Rules.{Triple}
use tessia_baselib.S3270.{Connector, S3270, number, lookup, buffer_size, transfer_buffer, connect}
use tessia_baselib.Ssh.Shell.Endless.{Loops}
use tessia_baselib.S3270.Pipe.{Process, stdout, read_answer, write_cmd}
use tessia_baselib.S3270.Pipe.Endless.{write_cmd-Loops}
use tessia_baselib.S3270.Connect.{ConnectorRuns, NotFuel, Connected, connect-Connected}

-- The state is the clock; the first answer is empty.
abbrev busy : Connector
busy = record {
  World = ℕ;
  second = 1;
  time = λ w. w;
  run = λ cmd n w. (returned (if w == 0 then ([], []) else (lit "ok", cmd)), suc w);
  quit = λ n. pure tt;
  st_size = λ path. pure 100;
}

busy-ConnectorRuns : ConnectorRuns busy
busy-ConnectorRuns = record { run_takes = λ cmd n w. omega arith; run_raises = λ cmd n w f. cc f }

abbrev fresh : S3270 busy
fresh = record { host_name = none; connector = true; world = 0 }

connect_test : connect busy 3 (lit "h") 2 fresh ≡ (
  returned (lit "Connect(h)"),
  record { host_name = some (lit "h"); connector = true; world = 2 },
)
unfolding connect ◌>>=◌ has_part starts_with text_eq lit
connect_test = refl

-- The size of the buffer is dropped for a direction in capitals, which is accepted.
buffer_test :
    ((transfer_buffer busy (lit "send") (lit "f") ((lit "BufferSize", number 50) ∷ []) fresh).0
      ≡ returned 50)
    × ((transfer_buffer busy (lit "SEND") (lit "f") ((lit "BufferSize", number 50) ∷ []) fresh).0
        ≡ returned 0)
unfolding transfer_buffer lookup buffer_size ◌>>=◌ text_eq lit
buffer_test = (refl, refl)

connect-Connected_example :
    Triple (λ s. Unit) (connect busy 3 (lit "h") 2) (Connected busy (lit "h")) NotFuel
connect-Connected_example = connect-Connected busy (lit "h") busy-ConnectorRuns 2

-- A process of which no pipe is ever ready.
abbrev silent : Process
silent = record {
  World = ℕ;
  second = 1;
  time = λ w. w;
  poll = λ w. (returned [], suc w);
  read = pure [];
  write = λ bytes. pure tt;
  communicate = λ n. pure tt;
  is_expired = λ e. false;
  kill = pure tt;
  encode = λ t. t;
  decode = λ bytes. some bytes;
}

-- A process that gives a part of a line at a time.
abbrev in_parts : Process
in_parts = record silent {
  poll = λ w. (returned (stdout ∷ []), w);
  read = λ w. (returned (if w == 0 then lit "data: ok" else lit "ay\nok\n"), suc w);
}

-- The part of a line is taken for the status.
partial_line_test : (read_answer in_parts 5 9 0).0 ≡ returned (lit "ok", lit "data: ok")
unfolding read_answer ◌>>=◌ split last lit text_eq
partial_line_test = refl

write_cmd-Loops_example : Loops (write_cmd silent 7 (lit "Enter") 2)
write_cmd-Loops_example = write_cmd-Loops silent (λ w. refl) 7 (lit "Enter") 2
