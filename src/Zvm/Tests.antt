-- ===== src/Zvm/Tests.antt =====
-- A start that is refused, and one that is not, on a small terminal.
use tessia_baselib.Prelude.{
  ◌≡◌, refl, true, false, none, some, List, [], ◌∷◌, Text, lit, text_eq, upper, take, drop, join,
}
use tessia_baselib.Python.{returned, pure, ◌>>=◌}
use tessia_baselib.Cms.{Terminal, stop, login, hotplug}
use tessia_baselib.Zvm.Netboot.{run_cp}
use tessia_baselib.Zvm.{ZvmVolume, ZvmParameters, start}
use tessia_baselib.Zvm.Words.{split_chars}
use tessia_baselib.Zvm.Checks.{no_boot_device, RefusesValue, start_refuses}

-- It answers each command with Ready; the state is the commands sent, the last first.
abbrev machine : Terminal
machine = record {
  World = List Text;
  send_cmd = λ cmd ps w.
      (returned ([], some (record { pattern = lit "Ready;"; group = lit "Ready;" })), cmd ∷ w);
  send_cp = λ cmd ps w.
      (returned ([], some (record { pattern = lit "z/VM"; group = lit "z/VM" })), cmd ∷ w);
  login = λ timeout. pure [];
  logoff = pure tt;
  disconnect = pure tt;
  cpu_of = λ line. none;
}

abbrev volume : ZvmVolume
volume = record {
  type = lit "dasd";
  boot_device = false;
  devno = some (lit "1234");
  adapters = none;
  lun = none;
}

abbrev from_disk : ZvmParameters
from_disk = record {
  boot_method = lit "disk";
  storage_volumes = volume ∷ [];
  ifaces = [];
  netboot = none;
}

abbrev from_cms : ZvmParameters
from_cms = record { boot_method = lit "cms"; storage_volumes = []; ifaces = []; netboot = none }

start_test :
    start machine (λ a b. pure tt) (λ a. lit "/tmp/a") (lit "VM") false (lit "vm") 0 0 from_cms []
    ≡ (
      returned tt,
      lit "term more 50 10"
          ∷ (lit "i cms" ∷ (lit "term more 50 10" ∷ (lit "i cms" ∷ (lit "system clear" ∷ [])))),
    )
unfolding start ◌>>=◌ lit text_eq upper stop login hotplug run_cp
start_test = refl

split_chars_test : split_chars (lit "0123456789") 8 ≡ lit "01234567 89"
unfolding split_chars lit take drop join
split_chars_test = refl

start_refuses_example :
    RefusesValue machine
      (λ a b. pure tt)
      (λ a. lit "/tmp/a")
      (lit "VM")
      true
      (start machine
        (λ a b. pure tt)
        (λ a. lit "/tmp/a")
        (lit "VM")
        true
        (lit "vm")
        1
        512
        from_disk)
      []
start_refuses_example =
    start_refuses machine (λ a b. pure tt) (λ a. lit "/tmp/a") (lit "VM") true (lit "vm") 1 512
      from_disk [] (no_boot_device refl (refl, tt))
