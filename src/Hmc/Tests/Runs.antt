-- ===== src/Hmc/Tests/Runs.antt =====
-- Runs of the console's operations on the small console.
use tessia_baselib.Prelude.{
  some, ◌≡◌, refl, sym, ap, ◌∙◌, arith, Bool, true, false, none, List, [], ◌∷◌, lit, text_eq,
  contains,
}
use tessia_baselib.Python.{returned, pure, ◌>>=◌}
use tessia_baselib.Python.Rules.{Triple, Triple-pure}
use tessia_baselib.Hmc.Client.{partition, lpar}
use tessia_baselib.Hmc.Boot.{load}
use tessia_baselib.Hmc.Commands.{Command, awaiting, send_commands}
use tessia_baselib.Hmc.Hypervisor.{
  set_boot_device, query_dpm_storage_devices, start_guest, check_parameters, login_timeout,
  is_there,
}
use tessia_baselib.Hmc.Hypervisor.Session.{LoggedOff, set_boot_device-closes, query-leaves_open}
use tessia_baselib.Hmc.Hypervisor.Keys.{NoKeyError, RaisesOwn, IsBootParams, load-NoKeyError}
use tessia_baselib.Hmc.Hypervisor.Active.{ActiveLaws, LoadedActive, start_guest-LoadedActive}
use tessia_baselib.Hmc.Tests.Console.{
  told, Box, lpar_status_of, volume_has, console, terminal, no_url, box, scsi_boot, parameters,
}

abbrev login_commands : List Command
login_commands = awaiting (lit "login:") (lit "root") ∷ []

send_commands_test :
    send_commands (terminal true) (partition tt) tt 600 login_commands box
    ≡ (returned tt, record { clock = 1; stopped = false; active = false })
unfolding send_commands ◌>>=◌ lit text_eq
send_commands_test = refl

logged_on : (console true).logon login_timeout box ≡ (returned 7, box)
unfolding pure
logged_on = refl

set_boot_device-closes_example :
    Triple
      (λ s. s ≡ record { conn = none; world = box })
      (set_boot_device (terminal true) no_url (lit "CPC") (lit "vm") scsi_boot)
      (λ u s. LoggedOff (terminal true) no_url (lit "CPC") 7 s)
      (λ e s. s.conn ≡ some 7)
set_boot_device-closes_example =
    set_boot_device-closes (terminal true) no_url (lit "CPC") box box 7 logged_on (lit "vm")
      scsi_boot

query-leaves_open_example :
    Triple
      (λ s. s ≡ record { conn = none; world = box })
      (query_dpm_storage_devices (terminal true) no_url (lit "CPC") (lit "vm"))
      (λ ds s. s.conn ≡ some 7)
      (λ e s. s.conn ≡ some 7)
query-leaves_open_example =
    query-leaves_open (terminal true) no_url (lit "CPC") box box 7 logged_on (lit "vm")

quiet : {A : Type 0} (a : A) → NoKeyError {S = Box} (pure a)
quiet a = Triple-pure a λ w k. tt

usage_there : is_there (volume_has (lit "usage")) ≡ true
unfolding text_eq lit
usage_there = refl

console-RaisesOwn : RaisesOwn (console true)
console-RaisesOwn = record {
  feature_enabled_own = λ p f. quiet true;
  storage_groups_own = λ p. quiet (tt ∷ []);
  group_type_own = λ g. quiet (lit "fcp");
  volumes_own = λ g. quiet (tt ∷ []);
  volume_property_own = λ v key. quiet (volume_has key);
  has_usage = λ v. Triple-pure (volume_has (lit "usage")) λ w k. usage_there;
  update_volume_own = λ v ps. quiet tt;
  element_uri_own = λ v. quiet (lit "/v1");
  partition_status_own = λ p. record { at = λ w k. tt };
  stop_partition_own = λ p. record { at = λ w k. tt };
  wait_partition_own = λ p s. record { at = λ w k. tt };
  update_partition_own = λ p ps. quiet tt;
  start_partition_own = λ p. record { at = λ w k. tt };
  scsi_load_own = λ l a b c. quiet tt;
  load_own = λ l a. quiet tt;
  post_nvme_load_own = λ l ps. quiet tt;
}

scsi-IsBootParams : IsBootParams scsi_boot
unfolding contains text_eq lit
scsi-IsBootParams = record {
  dasd_device = λ e. absurd (ground arith);
  nvme_device = λ e. absurd (ground arith);
  ftp_insfile = λ e. absurd (ground arith);
}

checked : check_parameters true 2 parameters ≡ returned tt
unfolding check_parameters text_eq lit
checked = refl

load-NoKeyError_example : NoKeyError (load (console true) no_url (partition tt) scsi_boot)
load-NoKeyError_example =
    load-NoKeyError console-RaisesOwn no_url (partition tt) 2 parameters scsi-IsBootParams checked

abbrev IsActive : Box → Type 0
IsActive w = w.active ≡ true

-- the status tells
lpar_active : (b : Bool) → text_eq (lpar_status_of b) (lit "not-activated") ≡ false → b ≡ true
unfolding lit text_eq
lpar_active true e = refl
lpar_active false e = absurd (cc e)

console-ActiveLaws : ActiveLaws (console false) tt IsActive
console-ActiveLaws = record {
  status_tells = λ status w w' e n.
      ap (λ x. x.1.active) (sym e)
      ∙ lpar_active w.active (ap (λ t. text_eq t (lit "not-activated")) (ap (λ x. told x.0) e) ∙ n);
  wait_tells = λ w w' e. ap (λ x. x.1.active) (sym e);
  activate_263 = λ profile w w' e. ap (λ x. x.1.active) (sym e);
  wait_263 = λ w w' e. ap (λ x. x.1.active) (sym e);
}

start_guest-LoadedActive_example :
    Triple
      (λ w. Unit)
      (start_guest (terminal false) no_url (lit "CPC") 600 tt (lpar tt) 0 1024 parameters none)
      (λ u w.
        LoadedActive (terminal false) no_url (lit "CPC") console-ActiveLaws 600 parameters none w)
      (λ e w. Unit)
start_guest-LoadedActive_example =
    start_guest-LoadedActive (terminal false) no_url (lit "CPC") console-ActiveLaws 600 tt 0 1024
      parameters none
