-- ===== src/Hmc/Terminal.antt =====
-- The OS messages interface of a guest, as the driver uses it: reading and sending, the clock, the
-- event that tells of a boot, and the Linux that files are pushed to. Messages.get_messages is a
-- parameter here; times are in ticks of the clock, `second` of them in a second.
use tessia_baselib.Prelude.{ℕ, Bool, List, Text}
use tessia_baselib.Python.{Method}
use tessia_baselib.Hmc.Client.{Client, Guest}

pub record Message : Type 0 where
  pub type : Text
  pub text : Text

-- an entry of get_notification_topics
pub record Topic : Type 0 where
  pub name : Text
  pub type : Text
  pub object_uri : Text

pub record Terminal (z : Client) : Type 1 where
  pub second : ℕ
  pub monotonic : z.World → ℕ
  pub sleep : ℕ → z.World → z.World
  -- re.search(pattern, text)
  pub search : Text → Text → Bool
  pub send_os_command : Guest z → Text → Method z.World (Unit {0})
  pub open_os_message_channel : Guest z → Method z.World Text
  pub get_notification_topics : Method z.World (List Topic)
  pub uri : Guest z → Text
  pub Receiver : Type 0
  -- NotificationReceiver(topic, …) and its queue
  pub receive : Text → Method z.World Receiver
  pub close : Receiver → Method z.World (Unit {0})
  -- get_messages with a timeout in ticks
  pub get_messages : Receiver → ℕ → Method z.World (List Message)
  -- the scheme of `urlsplit`
  pub scheme : Text → Text
  -- GuestLinux(…) with login, push_file and logoff
  pub Linux : Type 0
  pub guest_linux : Guest z → Text → Text → Linux
  pub linux_login : Linux → Method z.World (Unit {0})
  pub push_file : Linux → Text → Text → Method z.World (Unit {0})
  pub linux_logoff : Linux → Method z.World (Unit {0})
  -- the notification object: is_set and set
  pub Event : Type 0
  pub is_set : Event → z.World → Bool
  pub set : Event → z.World → z.World
