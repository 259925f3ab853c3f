-- ===== src/Hmc/Tests/Console.antt =====
-- A small console for the tests of the console's driver.
use tessia_baselib.Prelude.{
  ℕ, suc, ◌+◌, Bool, true, false, Option, none, some, [], ◌∷◌, Text, lit, text_eq, if◌then◌else◌,
}
use tessia_baselib.Python.{Outcome, http_error, returned, raised, Method, pure}
use tessia_baselib.Hmc.Cpus.{Processors}
use tessia_baselib.Hmc.Client.{Client, PartitionProperties}
use tessia_baselib.Hmc.Boot.{BootParams, Url}
use tessia_baselib.Hmc.Terminal.{Terminal}
use tessia_baselib.Hmc.Volumes.{StorageVolume}
use tessia_baselib.Hmc.Hypervisor.{StartParameters}

-- A console with one partition, one LPAR and one volume for booting; a clock, and whether the partition
-- is stopped and the LPAR active.
pub record Box : Type 0 where
  pub clock : ℕ
  pub stopped : Bool
  pub active : Bool

abbrev pub status_of : Bool → Text
status_of true = lit "stopped"
status_of false = lit "active"

abbrev pub lpar_status_of : Bool → Text
lpar_status_of true = lit "operating"
lpar_status_of false = lit "not-activated"

abbrev pub volume_has : Text → Option Text
volume_has key =
    if text_eq key (lit "usage")
    then some (lit "boot")
    else if text_eq key (lit "uuid")
    then some (lit "AB12")
    else none

abbrev pub old_properties : PartitionProperties
old_properties = record {
  initial_memory = 512;
  maximum_memory = 1024;
  cp = 1;
  ifl = 0;
  mode = lit "shared";
}

abbrev pub set_stopped : Bool → Method Box (Unit {0})
set_stopped b w = (returned tt, record w { stopped = b })

abbrev pub volume_info : StorageVolume
volume_info = record {
  uri = lit "/v1";
  fulfillment_state = some (lit "complete");
  active_size = some 10;
  group_type = lit "fcp";
  device_number = none;
  eckd_type = none;
  uuid = some (lit "AB12");
  paths = some (
      record {
        device_number = lit "1800";
        target_wwpn = lit "50";
        logical_unit_number = lit "0";
        partition_uri = lit "/p1";
      }
      ∷ (record {
        device_number = lit "1900";
        target_wwpn = lit "50";
        logical_unit_number = lit "0";
        partition_uri = lit "/p2";
      }
          ∷ []));
}

abbrev pub console : Bool → Client
console dpm = record {
  World = Box;
  Session = ℕ;
  Cpc = Unit;
  Partition = Unit;
  Lpar = Unit;
  Profile = Unit;
  Group = Unit;
  Volume = Unit;
  find_cpc = λ c n. pure tt;
  dpm_enabled = λ c. dpm;
  processor_counts = λ c. pure (record { cp = 2; ifl = 2 });
  find_partition = λ c n. pure tt;
  find_lpar = λ c n. pure tt;
  partition_status = λ p w. (returned (status_of w.stopped), w);
  pull_partition = λ p. pure tt;
  partition_properties = λ p. pure old_properties;
  update_partition = λ p ps. pure tt;
  stop_partition = λ p. set_stopped true;
  start_partition = λ p. set_stopped false;
  wait_partition = λ p s. set_stopped true;
  feature_enabled = λ p f. pure true;
  storage_groups = λ p. pure (tt ∷ []);
  group_type = λ g. pure (lit "fcp");
  volumes = λ g. pure (tt ∷ []);
  full_volumes = λ g. pure (volume_info ∷ []);
  partition_uri = λ p. lit "/p1";
  volume_property = λ v key. pure (volume_has key);
  update_volume = λ v ps. pure tt;
  element_uri = λ v. pure (lit "/v1");
  lpar_name = λ l. pure (lit "LP1");
  lpar_status = λ l w. (returned (lpar_status_of w.active), w);
  pull_lpar = λ l. pure tt;
  last_used = λ l. pure (record {
    profile_name = lit "LP1";
    address = lit "1800";
    port_name = [];
    logical_unit = lit "0";
  });
  find_profile = λ l. pure tt;
  profile_properties =
      λ p. pure (record { name = lit "LP1"; storage = 512; cp = 1; ifl = 0; usage = lit "shared" });
  update_profile = λ p ps. pure tt;
  activate = λ l n w. (raised (http_error 500 263), record w { active = true });
  deactivate = λ l. pure tt;
  wait_active = λ l w. (returned tt, record w { active = true });
  load = λ l a. pure tt;
  scsi_load = λ l a b c. pure tt;
  post_nvme_load = λ l ps. pure tt;
  is_error = λ n. true;
  logon = λ n. pure 7;
  logoff = λ c. pure tt;
}

abbrev pub tick : Method Box (Unit {0})
tick w = (returned tt, record w { clock = suc w.clock })

-- It prompts whenever it is read.
abbrev pub terminal : (dpm : Bool) → Terminal (console dpm)
terminal dpm = record {
  second = 1;
  monotonic = λ w. w.clock;
  sleep = λ n w. record w { clock = w.clock + n };
  search = λ pattern t. text_eq pattern t;
  send_os_command = λ g c. pure tt;
  open_os_message_channel = λ g. pure (lit "topic");
  get_notification_topics = pure [];
  uri = λ g. lit "/p1";
  Receiver = Unit;
  receive = λ topic. pure tt;
  close = λ r. pure tt;
  get_messages = λ r n w. (
    returned (record { type = lit "OS message"; text = lit "login:" } ∷ []),
    record w { clock = suc w.clock },
  );
  scheme = λ t. lit "http";
  Linux = Unit;
  guest_linux = λ g ip password. tt;
  linux_login = λ l. pure tt;
  push_file = λ l a b. pure tt;
  linux_logoff = λ l. pure tt;
  Event = Unit;
  is_set = λ e w. true;
  set = λ e w. w;
}

abbrev pub no_url : Text → Url
no_url t = record { hostname = none; username = none; password = none; path = t }

abbrev pub box : Box
box = record { clock = 0; stopped = false; active = false }

abbrev pub scsi_boot : BootParams
scsi_boot = record {
  boot_method = lit "scsi";
  devicenr = none;
  uuid = some (lit "ab12");
  wwpn = none;
  lun = none;
  insfile = none;
  netsetup = none;
  netboot = none;
}

abbrev pub parameters : StartParameters
parameters = record { boot_params = scsi_boot; cpus_cp = none; cpus_ifl = none }

abbrev pub some_cpus : Processors
some_cpus = record { cp = 2; ifl = 2 }

abbrev pub no_cpus : Processors
no_cpus = record { cp = 0; ifl = 0 }

abbrev pub told : Outcome Text → Text
told (returned t) = t
told (raised e) = []
