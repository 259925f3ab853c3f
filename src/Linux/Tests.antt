-- ===== src/Linux/Tests.antt =====
-- Runs of the storage drivers on a small host, and the theorems about them at concrete inputs.
use tessia_baselib.Prelude.{
  remove_0x, ℕ, ◌+◌, ◌≡◌, ◌⊎◌, refl, true, false, none, some, List, [], ◌∷◌, Text, lit, text_eq,
  is_line_end, is_space, lstrip, strip, arith, split, last, starts_with, last_line, if◌then◌else◌,
  leb,
}
use tessia_baselib.Python.{runtime_error, Outcome, returned, raised, Method, pure, ◌>>=◌}
use tessia_baselib.Python.Rules.{Post, Triple}
use tessia_baselib.Volume.{Adapter, is_true, Specs, Volume}
use tessia_baselib.Linux.Host.{Host}
use tessia_baselib.Linux.Timer.{poll, succeeds, timer, timer_end}
use tessia_baselib.Linux.Timer.Poll.{RanLast, Failed, timer_lem}
use tessia_baselib.Linux.Gives.{Gives, Gives-pure, IsConnection}
use tessia_baselib.Linux.Dasd.{new_dasd, DiskDasd}
use tessia_baselib.Linux.Disk.{new_base, enable_device, unless_found}
use tessia_baselib.Linux.Fcp.Maps.{
  enable_zfcp_module, enable_adapters, check_maps, check_multipath, get_all_scsi_dev_filenames,
  get_kernel_devname, get_multipath_name, multipath_of, same_map, wwpn_devs,
}
use tessia_baselib.Linux.Dasd
use tessia_baselib.Linux.Fcp
use tessia_baselib.Linux.Fcp.{add_0x, prefix_wwpns, is_multipath, has_path, new_fcp}
use tessia_baselib.Linux.Pool.{
  add_disks, create_disk, wants_mpath, dasd, StoragePool, start_tasks, activate,
}
use tessia_baselib.Linux.Pool.Endings.{failure, some_fails}
use tessia_baselib.Linux.Pool.Disks.{Holds, add_disks-Holds, Activated, pool-Activated}
use tessia_baselib.Linux.Pool.Activation.{activate_fails}
use tessia_baselib.Linux.Fcp.Paths.{
  enable_lun_paths, check_adapter_active, enable_paths, enable_path, adapter_path, device_found,
  exists_cmd, fcp_path, is_lun_active, is_wwpn_active, is_empty, last_word, kernel_device,
  get_scsi_dev_filename,
}
use tessia_baselib.Linux.Fcp.Reports.{IsDevice, get_scsi_dev_filename-Gives}
use tessia_baselib.Linux.Fcp.SameMap.{OneMap, check_multipath-OneMap}
use tessia_baselib.Linux.Fcp.Devices.{IsAnswer}
use tessia_baselib.Linux.Fcp.Activation.{IsFcpVolume, new_fcp_activates}

-- A clock in seconds; a path is known to lsscsi after 20 seconds and to the multipath daemon at once.
abbrev answer : Text → ℕ → ℕ × Text
answer cmd now =
    if starts_with cmd (lit "lszfcp")
    then (0, lit "0.0.1700/0x50/0x40 0:0:0:1")
    else if starts_with cmd (lit "lsscsi")
    then (0, lit (if leb 20 now then "[0:0:0:1] disk /dev/sda" else "[0:0:0:1] disk -"))
    else if starts_with cmd (lit "multipath")
    then (0, lit "mpatha")
    else (0, [])

abbrev clock : Host
clock = record {
  World = ℕ;
  Shell = Unit;
  open_shell = pure tt;
  close = λ s. pure tt;
  run = λ s cmd w. (returned (answer cmd w), w);
  sleep = λ n w. n + w;
  sleep_half = λ w. w;
}

abbrev connection : IsConnection clock
connection = record { run_reports = λ s cmd. record { at = λ w. tt } }

abbrev fcp_adapters : List Adapter
fcp_adapters = record { devno = some (lit "0.0.1700"); wwpns = some (lit "50" ∷ []) } ∷ []

abbrev fcp_specs : Specs
fcp_specs = record { multipath = some is_true; adapters = some fcp_adapters }

abbrev fcp_volume : Volume
fcp_volume = record {
  volume_id = some (lit "40");
  type = some (lit "FCP");
  specs = some fcp_specs;
  system_attributes = none;
  boot_device = false;
}

-- "-" is polled away: the path has its device at 21 seconds.
scsi_run :
    get_scsi_dev_filename clock tt (lit "0.0.1700") (lit "0x50") (lit "0x40") 0
    ≡ (returned (lit "/dev/sda"), 21)
unfolding get_scsi_dev_filename ◌>>=◌ poll starts_with lit is_empty strip last_word last split
    kernel_device text_eq
scsi_run = refl

get_scsi_dev_filename-Gives_example :
    Gives IsDevice (get_scsi_dev_filename clock tt (lit "0.0.1700") (lit "0x50") (lit "0x40"))
get_scsi_dev_filename-Gives_example =
    get_scsi_dev_filename-Gives clock connection tt (lit "0.0.1700") (lit "0x50") (lit "0x40")

abbrev fcp_volume_formed : IsFcpVolume fcp_volume
unfolding has_path
fcp_volume_formed = record {
  volume_id = lit "40";
  specs = fcp_specs;
  adapters = fcp_adapters;
  has_id = refl;
  has_specs = refl;
  has_adapters = refl;
  formed = (
    record { devno = lit "0.0.1700"; wwpns = lit "50" ∷ []; has_devno = refl; has_wwpns = refl },
    tt,
  );
  some_path = refl;
}

-- The whole activation, to the path of the multipath map.
fcp_run :
    (do d ← new_fcp clock fcp_volume; Fcp.activate clock d) 0
    ≡ (returned (lit "/dev/mapper/mpatha"), 21)
unfolding new_fcp ◌>>=◌ new_base has_path Fcp.activate enable_zfcp_module starts_with lit
    enable_adapters prefix_wwpns enable_lun_paths enable_device poll succeeds check_adapter_active
    timer timer_end enable_paths enable_path unless_found check_maps check_multipath
    get_all_scsi_dev_filenames get_kernel_devname get_multipath_name multipath_of same_map wwpn_devs
    adapter_path device_found exists_cmd fcp_path get_scsi_dev_filename is_empty is_lun_active
    is_wwpn_active kernel_device last_word add_0x is_multipath text_eq is_line_end is_space last
    last_line lstrip split strip
fcp_run = refl

new_fcp_activates_example :
    Gives (IsAnswer true) (do d ← new_fcp clock fcp_volume; Fcp.activate clock d)
unfolding is_multipath fcp_volume_formed
new_fcp_activates_example =
    new_fcp_activates clock connection (Gives-pure tt tt) fcp_volume fcp_volume_formed

abbrev dasd_disk : DiskDasd clock
dasd_disk = record { volume_id = lit "0x1500"; shell = tt; devicenr = lit "1500" }

abbrev wait_test : Text
wait_test = lit "[ -e '/sys/bus/ccw/drivers/zfcp/0.0.1700' ]"

timer_lem_example :
    Post
      (λ u w'. (out : Text) × RanLast clock tt wait_test (3 ∷ 5 ∷ []) 0 (returned (0, out)) w')
      (λ e w'.
        ((e ≡ runtime_error "not there") × Failed clock tt wait_test (3 ∷ 5 ∷ []) 0 w')
        ⊎ RanLast clock tt wait_test (3 ∷ 5 ∷ []) 0 (raised e) w')
      (timer clock tt wait_test (3 ∷ 5 ∷ []) "not there" 0).0
      (timer clock tt wait_test (3 ∷ 5 ∷ []) "not there" 0).1
timer_lem_example = timer_lem clock tt wait_test 3 (5 ∷ []) "not there" 0

-- Threads that run at once, and are found alive two times.
abbrev at_once : Method ℕ Text → ℕ → (ℕ × Outcome Text) × ℕ
at_once m w = let (r, w') = m w in ((2, r), w')

abbrev one_disk : StoragePool clock
one_disk = record { mpath = false; disks = dasd dasd_disk ∷ [] }

-- threads that fail
abbrev refused : Method ℕ Text → ℕ → (ℕ × Outcome Text) × ℕ
refused m w = ((0, raised (runtime_error "Failed to enable device {}")), w)

activate_fails_example : (activate clock refused 1 one_disk 0).0 ≡ raised failure
unfolding start_tasks some_fails ◌>>=◌
activate_fails_example =
    activate_fails clock refused 0 one_disk 0 (record { prepared = 0; prepares = refl })
      (omega arith, tt) refl

check_multipath-OneMap_example :
    Triple
      (λ s. s ≡ 0)
      (check_multipath clock tt (lit "0x40") fcp_adapters)
      (OneMap clock tt (lit "0x40") fcp_adapters 0)
      (λ e v. Unit)
check_multipath-OneMap_example = check_multipath-OneMap clock tt (lit "0x40") fcp_adapters 0

abbrev dasd_volume : Volume
dasd_volume = record {
  volume_id = some (lit "1500");
  type = some (lit "DASD");
  specs = none;
  system_attributes = none;
  boot_device = false;
}

abbrev dasd_pool : StoragePool clock
dasd_pool = record {
  mpath = false;
  disks = dasd (record { volume_id = lit "1500"; shell = tt; devicenr = lit "1500" }) ∷ [];
}

pool-Activated_example : Activated clock at_once 3 (dasd_volume ∷ []) dasd_pool 0
unfolding add_disks create_disk wants_mpath new_dasd new_base remove_0x text_eq starts_with lit
    start_tasks ◌>>=◌ Dasd.activate
pool-Activated_example =
    pool-Activated clock at_once 2 (dasd_volume ∷ []) dasd_pool 0 0 refl
      (record { prepared = 0; prepares = refl }) (omega arith, tt)
      ((lit "/dev/disk/by-path/ccw-0.0.1500", refl), tt)

add_disks-Holds_example :
    Triple
      (λ s. Unit)
      (add_disks clock false (dasd_volume ∷ fcp_volume ∷ []))
      (λ pool w. Holds clock false (dasd_volume ∷ fcp_volume ∷ []) pool)
      (λ e w. Unit)
add_disks-Holds_example = add_disks-Holds clock false (dasd_volume ∷ fcp_volume ∷ [])
