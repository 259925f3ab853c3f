-- ===== src/S3270/Pipe.antt =====
-- S3270PipeConnector (tessia/baselib/common/s3270/s3270pipeconnector.py): the pipes of an s3270 process.
-- The process, epoll, the clock and the codec are parameters; bytes are numbers. That the object lets go
-- of its process at the end of terminate is left out.
pub mod Endless
use tessia_baselib.Prelude.{
  ℕ, zero, suc, ◌+◌, ◌*◌, ◌==◌, ltb, leb, Bool, true, false, ◌&&◌, ◌||◌, Option, none, some, List,
  [], ◌∷◌, ◌++◌, Text, lit, text_eq, split, last, if◌then◌else◌,
}
use tessia_baselib.Python.{
  Error, attribute_error, value_error, index_error, timeout_error, out_of_fuel, Outcome, returned,
  raised, Method, pure, raise, lift, gets, handle, option_case, ◌>>=◌, ◌>>◌,
}

-- the descriptor of an event of the poll
pub data Event : Type 0 where
  stdout stdin : Event

-- Times are in ticks, `second` of them in a second.
pub record Process : Type 1 where
  pub World : Type 0
  pub second : ℕ
  pub time : World → ℕ
  -- poller.poll(1)
  pub poll : Method World (List Event)
  -- read(stdout, ROW_SIZE)
  pub read : Method World (List ℕ)
  pub write : List ℕ → Method World (Unit {0})
  pub communicate : ℕ → Method World (Unit {0})
  -- TimeoutExpired
  pub is_expired : Error → Bool
  pub kill : Method World (Unit {0})
  pub encode : Text → List ℕ
  pub decode : List ℕ → Option Text

-- white space of bytes.split
unfoldable pub is_blank : ℕ → Bool
is_blank c = c == 32 || (leb 9 c && leb c 13)

-- the last word of bytes, after the word that was read so far and what is left of it
unfoldable pub last_from : List ℕ → List ℕ → List ℕ → List ℕ
unfolding is_blank
last_from last word [] = if text_eq word [] then last else word
last_from last word (c ∷ cs) =
    let blank = last_from (if text_eq word [] then last else word) [] cs in
    let inside = last_from last (word ++ (c ∷ [])) cs in if is_blank c then blank else inside

-- output.rsplit()[-1], empty where there is none
unfoldable pub final_word : List ℕ → List ℕ
unfolding last_from
final_word output = last_from [] [] output

-- whether the output ends with ok or error
unfoldable pub has_status : List ℕ → Bool
unfolding final_word
has_status output =
    text_eq (final_word output) (lit "ok") || text_eq (final_word output) (lit "error")

module _ (p : Process) where
  -- what the events of one poll give to the buffer. The `continue` for a line that is not full goes to the
  -- next event, where the loop goes anyway.
  unfoldable pub read_events : ℕ → List Event → List ℕ → Method p.World (List ℕ)
  read_events deadline [] buffer_read = pure buffer_read
  read_events deadline (e ∷ es) buffer_read = do
    new ← elim e [ stdout ↦ p.read | stdin ↦ pure [] ]
    now ← gets p.time
    if ltb deadline now
        then raise (timeout_error "Timeout while reading output")
        else read_events deadline es (buffer_read ++ new)

  -- the loop of _read, with at most `fuel` rounds
  unfoldable pub read_loop : ℕ → ℕ → List ℕ → Method p.World (List ℕ)
  unfolding read_events has_status
  read_loop zero deadline output = raise out_of_fuel
  read_loop (suc fuel) deadline output = do
    events ← p.poll
    buffer_read ← read_events deadline events []
    if has_status (output ++ buffer_read) then pure (output ++ buffer_read) else (do
      now ← gets p.time
      if ltb deadline now
          then raise (timeout_error "Timeout while reading output")
          else read_loop fuel deadline (output ++ buffer_read))

  unfoldable pub read_answer : ℕ → ℕ → Method p.World (Text × Text)
  unfolding read_loop
  read_answer fuel timeout = do
    start ← gets p.time
    output ← read_loop fuel (start + timeout * p.second) []
    text ← lift (option_case (p.decode output) (raised (value_error "codec can't decode")) returned)
    status ←
        lift (
          option_case (last (split text)) (raised (index_error "list index out of range")) returned)
    pure (status, text)

  -- whether the command was written
  unfoldable pub write_events : ℕ → List ℕ → List Event → Bool → Method p.World Bool
  write_events deadline cmd [] done = pure done
  write_events deadline cmd (e ∷ es) done = do
    done' ← elim e [ stdout ↦ pure done | stdin ↦ p.write cmd >> pure true ]
    now ← gets p.time
    if ltb deadline now
        then raise (timeout_error "Could not write on stdin")
        else write_events deadline cmd es done'

  -- the loop of _write, with at most `fuel` rounds
  unfoldable pub write_loop : ℕ → ℕ → List ℕ → Method p.World (Unit {0})
  unfolding write_events
  write_loop zero deadline cmd = raise out_of_fuel
  write_loop (suc fuel) deadline cmd = do
    events ← p.poll
    done ← write_events deadline cmd events false
    if done then pure tt else write_loop fuel deadline cmd

  unfoldable pub write_cmd : ℕ → Text → ℕ → Method p.World (Unit {0})
  unfolding write_loop
  write_cmd fuel cmd timeout = do
    start ← gets p.time
    write_loop fuel (start + timeout * p.second) (p.encode (cmd ++ lit "\n"))

  unfoldable pub run : ℕ → Text → ℕ → Method p.World (Text × Text)
  unfolding write_cmd read_answer
  run fuel cmd timeout = do write_cmd fuel cmd timeout; read_answer fuel timeout

  -- the process is killed where it does not end in time
  unfoldable pub terminate : ℕ → Method p.World (Unit {0})
  terminate timeout w =
      let (r, w') = p.communicate timeout w in
      handle p.is_expired (do p.kill; p.communicate timeout) r w'

  unfoldable pub quit : ℕ → ℕ → Method p.World (Unit {0})
  unfolding write_cmd terminate
  quit fuel timeout = do write_cmd fuel (lit "Quit") timeout; terminate 120
