-- ===== src/Hmc/Live.antt =====
-- Bringing the network up on the live image: _get_os_channel, _execute_kexec and _do_netsetup
-- (hypervisors/hmc/hmc.py), inside the context of Messages.connect (hypervisors/hmc/messages.py).
use tessia_baselib.Prelude.{
  ℕ, zero, suc, ◌+◌, ◌-◌, ◌*◌, ltb, leb, Bool, ◌&&◌, Option, none, some, List, [], ◌∷◌, ◌++◌, map,
  Text, lit, text_eq, contains, split_on, if◌then◌else◌,
}
use tessia_baselib.Python.{
  runtime_error, out_of_fuel, Outcome, returned, raised, Method, pure, raise, lift, gets, modify,
  ◌>>=◌, ◌>>◌,
}
use tessia_baselib.Hmc.Client.{Client, Guest}
use tessia_baselib.Hmc.NetSetup.{NetBoot, NetSetup, prepare_setup_network_cmds}
use tessia_baselib.Hmc.Resources.{is_status}
use tessia_baselib.Hmc.Terminal.{Message, Topic, Terminal}
use tessia_baselib.Hmc.Commands.{Command, plain, awaiting, send_commands}

-- MSG_POST_LOAD_DURATION and KEXEC_WAIT_TIME, in seconds
abbrev pub post_load_duration : ℕ
post_load_duration = 90

abbrev pub kexec_wait_time : ℕ
kexec_wait_time = 10

-- uri.split('/')[-1]
unfoldable pub object_id : Text → Text
object_id uri = last (split_on b'/' uri)
  where
    last : List Text → Text
    last [] = []
    last (t ∷ []) = t
    last (t ∷ (u ∷ us)) = last (u ∷ us)

-- the topics of the OS messages of a guest
unfoldable pub os_topics : Text → List Topic → List Text
unfolding object_id
os_topics uri [] = []
os_topics uri (t ∷ ts) =
    let rest = os_topics uri ts in
    if text_eq t.type (lit "os-message-notification")
      && text_eq (object_id t.object_uri) (object_id uri)
    then t.name ∷ rest
    else rest

-- a URL that wget reads
unfoldable pub is_web : Text → Bool
is_web scheme = contains (lit "http" ∷ (lit "https" ∷ (lit "ftp" ∷ []))) scheme

unfoldable pub wget_cmd : Text → Text → Text
wget_cmd src tgt =
    lit "wget --no-check-certificate -nv -O '" ++ (tgt ++ (lit "' '" ++ (src ++ lit "'")))

abbrev truthy : Option Text → Option Text
truthy none = none
truthy (some []) = none
truthy (some (c ∷ cs)) = some (c ∷ cs)

initrd_words : Option Text → Text
initrd_words none = []
initrd_words (some url) = lit " --initrd=/tmp/initrd"

cmdline_words : Option Text → Text
cmdline_words none = []
cmdline_words (some cmdline) = lit " --command-line='" ++ (cmdline ++ lit "'")

unfoldable pub kexec_cmd : NetBoot → Text
unfolding initrd_words cmdline_words
kexec_cmd n =
    lit "kexec /tmp/kernel"
    ++ (initrd_words (truthy n.initrd_url) ++ cmdline_words (truthy n.cmdline))

handle_any : {S A : Type 0} → Outcome A → Method S A
handle_any (returned a) s = (returned a, s)
handle_any (raised e) s = (raised (runtime_error "Failed to upload {}"), s)

-- `try: m` with `except Exception: raise RuntimeError`
unfoldable pub or_failed_upload : {S A : Type 0} → Method S A → Method S A
unfolding handle_any
or_failed_upload m s = let (r, s') = m s in handle_any r s'

keep_outcome : {S A : Type 0} → Outcome (Unit {0}) → Outcome A → Method S A
keep_outcome (returned u) r s = (r, s)
keep_outcome (raised e) r s = (raised e, s)

-- `with` a context whose exit is `exit`: an error on the way out takes the place of the outcome
unfoldable pub with_exit : {S A : Type 0} → Method S (Unit {0}) → Method S A → Method S A
unfolding keep_outcome
with_exit exit m s = let (r, s') = m s in let (x, s'') = exit s' in keep_outcome x r s''

module _ {z : Client} (t : Terminal z) where
  pick_topic : List Text → Method z.World Text
  pick_topic [] = raise (runtime_error "Could not determine OS messages topic")
  pick_topic (topic ∷ topics) = pure topic

  -- what the answer to open_os_message_channel leads to: a topic, or another attempt
  unfoldable pub channel_answer : Guest z → Outcome Text → Method z.World (Option Text)
  unfolding is_status os_topics pick_topic
  channel_answer g (returned topic) = pure (some topic)
  channel_answer g (raised e) =
      if is_status e 409 332
      then (do modify (t.sleep 2); pure none)
      else if is_status e 409 331
      then (do
        all_topics ← t.get_notification_topics
        topic ← pick_topic (os_topics (t.uri g) all_topics)
        pure (some topic))
      else raise e

  -- `try: return m` with the handler of its errors
  unfoldable pub attempt_channel : Guest z → Method z.World (Option Text)
  unfolding channel_answer
  attempt_channel g w = let (r, w') = t.open_os_message_channel g w in channel_answer g r w'

  -- the loop of `while`, with at most `fuel` rounds
  unfoldable pub poll_channel : ℕ → ℕ → Guest z → Method z.World Text
  unfolding attempt_channel
  poll_channel zero timeout g = raise out_of_fuel
  poll_channel (suc fuel) timeout g = do
    now ← gets t.monotonic
    if ltb now timeout
        then (do
          found ← attempt_channel g
          elim found [ none ↦ poll_channel fuel timeout g | some topic ↦ pure topic ])
        else raise (runtime_error "Timed out waiting for OS messages channel")

  unfoldable pub get_os_channel : ℕ → Guest z → Method z.World Text
  unfolding poll_channel
  get_os_channel fuel g = do
    start ← gets t.monotonic
    poll_channel fuel (start + post_load_duration * t.second) g

  -- push a file with an SSH client
  unfoldable pub transfer : Guest z → NetSetup → Text → Text → Method z.World (Unit {0})
  unfolding or_failed_upload
  transfer g n source target =
      let linux = t.guest_linux g n.ip n.password in
      or_failed_upload
        (do t.linux_login linux; t.push_file linux source target; t.linux_logoff linux)

  -- one turn of the loop over the two files: the command that fetches it, if the guest does
  unfoldable pub fetch : Guest z → NetSetup → Option Text → Text → Method z.World (List Command)
  unfolding transfer is_web wget_cmd
  fetch g n none target = pure []
  fetch g n (some []) target = pure []
  fetch g n (some (c ∷ cs)) target =
      if is_web (t.scheme (c ∷ cs))
      then pure (plain (wget_cmd (c ∷ cs) target) ∷ [])
      else (do transfer g n (c ∷ cs) target; pure [])

  module _ (fuel : ℕ) (g : Guest z) where
    unfoldable pub execute_kexec : t.Receiver → NetSetup → NetBoot → Method z.World (Unit {0})
    unfolding fetch kexec_cmd
    execute_kexec r n b = do
      kernel ← fetch g n (some b.kernel_url) (lit "/tmp/kernel")
      initrd ← fetch g n b.initrd_url (lit "/tmp/initrd")
      send_commands t g r fuel
          (awaiting [] (lit "#") ∷ (kernel ++ (initrd ++ plain (kexec_cmd b) ∷ [])))
      modify (t.sleep 1)

    notify_set : Option t.Event → Method z.World (Unit {0})
    notify_set none = pure tt
    notify_set (some event) = do
      done ← gets (t.is_set event)
      if done then pure tt else modify (t.set event)

    -- the messages of one read after kexec
    unfoldable pub watch_messages : ℕ → Option t.Event → List Message → Method z.World (Unit {0})
    unfolding notify_set
    watch_messages stime notify [] = pure tt
    watch_messages stime notify (m ∷ ms) = do
      now ← gets t.monotonic
      if leb (now - stime) (kexec_wait_time * t.second)
          then (if t.search (lit "Cannot read") m.text
              then raise (runtime_error "Cannot read /tmp/kernel or /tmp/initrd")
              else pure tt)
          else notify_set notify
      watch_messages stime notify ms

    -- max(1.0, min(MSG_POST_LOAD_DURATION, left))
    unfoldable pub read_time : ℕ → ℕ
    read_time left =
        let capped =
          if ltb left (post_load_duration * t.second)
          then left
          else post_load_duration * t.second in
        if ltb capped t.second then t.second else capped

    -- the loop of `while` after kexec, with at most `rounds` rounds
    unfoldable pub watch_boot : ℕ → ℕ → ℕ → t.Receiver → Option t.Event → Method z.World (Unit {0})
    unfolding watch_messages read_time
    watch_boot zero timeout stime r notify = raise out_of_fuel
    watch_boot (suc rounds) timeout stime r notify = do
      now ← gets t.monotonic
      if ltb now timeout
          then (do
            again ← gets t.monotonic
            messages ← t.get_messages r (read_time (timeout - again))
            watch_messages stime notify messages
            watch_boot rounds timeout stime r notify)
          else pure tt

    -- Messages.connect with _get_guest_os_channel: the constructor opens the channel
    unfoldable pub connect : Method z.World t.Receiver
    unfolding get_os_channel
    connect = do topic ← get_os_channel fuel g; t.receive topic

    unfoldable pub netsetup_session :
        NetSetup
        → Option NetBoot
        → List Text
        → Option t.Event
        → t.Receiver
        → Method z.World (Unit {0})
    unfolding execute_kexec watch_boot
    netsetup_session n boot net_cmds notify r = do
      send_commands t g r fuel (
          awaiting (lit "debirf-rescue login:") (lit "root")
          ∷ (awaiting (lit "Password:") n.password ∷ []))
      send_commands t g r fuel (map plain net_cmds)
      elim boot [
        | none ↦ pure tt
        | some b ↦ (do
          execute_kexec r n b
          stime ← gets t.monotonic
          start ← gets t.monotonic
          watch_boot fuel (start + post_load_duration * t.second) stime r notify)
      ]

    unfoldable pub do_netsetup :
        Option NetSetup → Option NetBoot → Option t.Event → Method z.World (Unit {0})
    unfolding netsetup_session connect with_exit prepare_setup_network_cmds
    do_netsetup none boot notify = pure tt
    do_netsetup (some n) boot notify = do
      net_cmds ← lift (prepare_setup_network_cmds n)
      r ← connect
      with_exit (t.close r) (netsetup_session n boot net_cmds notify r)
