-- ===== src/S3270.antt =====
-- S3270 (tessia/baselib/common/s3270/s3270.py): the commands of the s3270 program, over a connector to its
-- process. The connector, the clock and the sizes of files are parameters; `hide`, which keeps a command
-- out of the log, is left out.
pub mod Connect
pub mod Pipe
mod Tests
use tessia_baselib.Prelude.{
  ℕ, zero, suc, ◌+◌, ◌*◌, ◌==◌, ltb, Bool, true, false, not, ◌&&◌, ◌||◌, Option, none, some, List,
  [], ◌∷◌, ◌++◌, map, String, Text, lit, text_eq, lower, has_part, join, decimal, if◌then◌else◌,
}
use tessia_baselib.Python.{
  attribute_error, value_error, type_error, timeout_error, status_error, out_of_fuel, Outcome,
  returned, raised, Method, pure, raise, lift, gets, modify, option_case, except_timeout, ◌>>=◌,
  ◌>>◌,
}

-- The connector. Times are in ticks, `second` of them in a second.
pub record Connector : Type 1 where
  pub World : Type 0
  pub second : ℕ
  pub time : World → ℕ
  -- the status and the output of a command
  pub run : Text → ℕ → Method World (Text × Text)
  pub quit : ℕ → Method World (Unit {0})
  -- os.stat(path).st_size
  pub st_size : Text → Method World ℕ

-- a value of `extra_params`
pub data Value : Type 0 where
  number : ℕ → Value
  word : Text → Value

abbrev pub shown : Value → Text
shown (number n) = decimal n
shown (word t) = t

-- the paths and the options of a transfer
pub record Transfer : Type 0 where
  pub local_path : Text
  pub remote_path : Text
  pub direction : Text
  pub mode : Text
  pub recfm : Text

unfoldable pub check_options : Transfer → Outcome (Unit {0})
check_options p =
    if not (text_eq (lower p.direction) (lit "send"))
      && not (text_eq (lower p.direction) (lit "receive"))
    then raised (value_error "Invalid direction '{}'")
    else if not (text_eq (lower p.mode) (lit "ascii"))
        && not (text_eq (lower p.mode) (lit "binary"))
    then raised (value_error "Invalid mode '{}'")
    else if not (text_eq (lower p.recfm) (lit "fixed"))
        && not (text_eq (lower p.recfm) (lit "variable"))
    then raised (value_error "Invalid recfm option '{}'")
    else returned tt

unfoldable pub lookup : Text → List (Text × Value) → Option Value
lookup key [] = none
lookup key (e ∷ es) = let rest = lookup key es in if text_eq e.0 key then some e.1 else rest

-- extra_params.pop(key, None)
unfoldable pub pop : Text → List (Text × Value) → List (Text × Value)
pop key [] = []
pop key (e ∷ es) = let rest = pop key es in if text_eq e.0 key then rest else e ∷ rest

abbrev buffer_key : Text
buffer_key = lit "BufferSize"

-- extra_params.get('BufferSize', 0), which is compared with a number
unfoldable pub buffer_size : Option Value → Outcome ℕ
buffer_size none = returned 0
buffer_size (some (number n)) = returned n
buffer_size (some (word t)) =
    raised (type_error "'>' not supported between instances of 'str' and 'int'")

unfoldable pub extra_text : List (Text × Value) → Text
extra_text [] = []
extra_text (e ∷ es) = lit ", \"" ++ (e.0 ++ (lit "=" ++ (shown e.1 ++ (lit "\"" ++ extra_text es))))

unfoldable pub params_str : Transfer → List (Text × Value) → Text
unfolding extra_text
params_str p extra =
    lit "Direction="
    ++ (p.direction
        ++ (lit ", \"LocalFile="
            ++ (p.local_path
                ++ (lit "\", \"HostFile="
                    ++ (p.remote_path
                        ++ (lit "\", Mode="
                            ++ (p.mode
                                ++ (lit ", Recfm="
                                    ++ (p.recfm ++ (lit ", Host=vm" ++ extra_text extra))))))))))

unfoldable pub ascii_command : List ℕ → Text
ascii_command [] = lit "Ascii"
ascii_command (n ∷ ns) = lit "Ascii(" ++ (join (lit ",") (map decimal (n ∷ ns)) ++ lit ")")

-- a command with one quoted argument
quoted : Text → Text → Text
quoted name arg = name ++ (lit "(\"" ++ (arg ++ lit "\")"))

abbrev pub connect_to : Text → Text
connect_to host = lit "Connect(" ++ (host ++ lit ")")

-- what one answer to Connect means: the output of the command, or none to ask again
unfoldable pub judge : Text → Text → Outcome (Option Text)
judge status output =
    if text_eq status []
    then returned none
    else if has_part output (lit "No address associated with hostname")
    then raised (status_error "No address associated with hostname {}" none)
    else if has_part status (lit "error")
    then raised (status_error "Error while sending Connect command" none)
    else if has_part status (lit "ok")
    then returned (some output)
    else returned none

module _ (c : Connector) where
  -- the object; `connector` is false once it let go of its process
  pub record S3270 : Type 0 where
    pub host_name : Option Text
    pub connector : Bool
    pub world : c.World

  -- what does not need the connector
  abbrev pub outside : {A : Type 0} → Method c.World A → Method S3270 A
  outside m s = let answer = m s.world in (answer.0, record s { world = answer.1 })

  -- a call of the connector
  abbrev pub through : {A : Type 0} → Method c.World A → Method S3270 A
  through m s =
      let answer = m s.world in
      if s.connector
      then (answer.0, record s { world = answer.1 })
      else (raised (attribute_error "'NoneType' object has no attribute"), s)

  -- a command that has to end with ok
  unfoldable pub command : Text → ℕ → String → Method S3270 Text
  command cmd timeout message = do
    answer ← through (c.run cmd timeout)
    if has_part answer.0 (lit "ok") then pure answer.1 else raise (status_error message none)

  unfoldable pub ascii : List ℕ → ℕ → Method S3270 Text
  unfolding command ascii_command
  ascii param timeout = command (ascii_command param) timeout "Error while sending Ascii command"

  unfoldable pub clear : ℕ → Method S3270 Text
  unfolding command
  clear timeout = command (lit "Clear") timeout "Error while sending Clear command"

  unfoldable pub disconnect : ℕ → Method S3270 Text
  unfolding command
  disconnect timeout = command (lit "Disconnect") timeout "Error while sending Disconnect command"

  unfoldable pub enter : ℕ → Method S3270 Text
  unfolding command
  enter timeout = command (lit "Enter") timeout "Error while sending Enter command"

  unfoldable pub execute : Text → ℕ → Method S3270 Text
  unfolding command
  execute cmd timeout =
      command (lit "Execute(" ++ (cmd ++ lit ")")) timeout "Failed to execute {} using s3270"

  unfoldable pub query : Text → ℕ → Method S3270 Text
  unfolding command quoted
  query attr timeout =
      command (if text_eq attr [] then lit "Query(\"Host\")" else quoted (lit "Query") attr) timeout
        "Error while sending Query command"

  unfoldable pub snap : Text → ℕ → Method S3270 Text
  unfolding command quoted
  snap cmd timeout =
      command (if text_eq cmd [] then lit "Snap" else quoted (lit "Snap") cmd) timeout
        "Error while sending Snap command"

  unfoldable pub string : Text → ℕ → Method S3270 Text
  unfolding command quoted
  string str_content timeout =
      command (quoted (lit "String") str_content) timeout "Error while sending String command"

  unfoldable pub quit : ℕ → Method S3270 (Unit {0})
  quit timeout = do
    through (c.quit timeout)
    modify λ s. record s { host_name = none; connector = false }

  unfoldable pub ask_connect : Text → Method S3270 (Text × Text)
  ask_connect host =
      except_timeout (through (c.run (connect_to host) 180))
        (raise (timeout_error "Host is taking too long to answer"))

  -- the loop of connect, with at most `fuel` rounds
  unfoldable pub connect_loop : ℕ → ℕ → Text → Method S3270 Text
  unfolding judge ask_connect
  connect_loop zero deadline host = raise out_of_fuel
  connect_loop (suc fuel) deadline host = do
    answer ← ask_connect host
    found ← lift (judge answer.0 answer.1)
    option_case found
        (do
          now ← gets λ s. c.time s.world
          if ltb deadline now
              then raise (timeout_error "Timeout while connecting to {}")
              else connect_loop fuel deadline host)
        pure

  unfoldable pub connect : ℕ → Text → ℕ → Method S3270 Text
  unfolding connect_loop
  connect fuel host timeout = do
    modify λ s. record s { host_name = some host }
    start ← gets λ s. c.time s.world
    connect_loop fuel (start + timeout * c.second) host

  -- the size of the buffer, 0 where none is sent: one larger than the file is not
  unfoldable pub transfer_buffer : Text → Text → List (Text × Value) → Method S3270 ℕ
  unfolding lookup buffer_size
  transfer_buffer direction local_path extra =
      if text_eq direction (lit "send")
      then (do
        size ← lift (buffer_size (lookup buffer_key extra))
        if size == 0 then pure 0 else (do
          answer ← outside (c.st_size local_path)
          pure (if ltb answer size then 0 else size)))
      else pure 0

  unfoldable pub transfer : Transfer → List (Text × Value) → ℕ → Method S3270 Text
  unfolding check_options pop params_str transfer_buffer
  transfer p extra timeout = do
    lift (check_options p)
    size ← transfer_buffer p.direction p.local_path extra
    answer ← through (
        c.run
          (lit "Transfer("
            ++ (params_str p (if size == 0 then pop buffer_key extra else extra) ++ lit ")"))
          timeout)
    if has_part answer.0 (lit "ok")
        then pure answer.1
        else raise (status_error "Failed to execute Transfer command" (some answer.1))
