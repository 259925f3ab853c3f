-- ===== src/Linux/Fcp/Maps.antt =====
-- The kernel devices of all paths of an FCP disk and their multipath map (disk_fcp.py).
use tessia_baselib.Prelude.{
  ◌==◌, not, ◌&&◌, Option, none, some, List, [], ◌∷◌, ◌++◌, Text, lit, text_eq, strip, last_line,
  if◌then◌else◌,
}
use tessia_baselib.Python.{
  runtime_error, key_error, index_error, type_error, Method, pure, raise, lift, or_raise, ◌>>=◌,
  ◌>>◌,
}
use tessia_baselib.Volume.{Adapter}
use tessia_baselib.Linux.Host.{Host}
use tessia_baselib.Linux.Timer.{poll, timer}
use tessia_baselib.Linux.Disk.{device_times}
use tessia_baselib.Linux.Fcp.Paths.{is_empty, fcp_path, get_scsi_dev_filename, enable_lun_paths}

-- One entry of the list of paths: the path, and its kernel device.
pub record ScsiDev : Type 0 where
  pub path : Text
  pub kernel_path : Text

module _ (h : Host) (shell : h.Shell) where
  unfoldable pub enable_zfcp_module : Method h.World (Unit {0})
  enable_zfcp_module = do
    loaded ← h.run shell (lit "modprobe zfcp")
    if loaded.0 == 0 then pure tt else raise (runtime_error "Unable to load fcp module: {}")

  unfoldable pub wwpn_devs : Text → Text → List Text → Method h.World (List ScsiDev)
  wwpn_devs lun devno [] = pure []
  wwpn_devs lun devno (wwpn ∷ wwpns) = do
    kernel_path ← get_scsi_dev_filename h shell devno wwpn lun
    rest ← wwpn_devs lun devno wwpns
    pure (record { path = fcp_path devno wwpn lun; kernel_path = kernel_path } ∷ rest)

  -- _get_all_scsi_dev_filenames
  unfoldable pub get_all_scsi_dev_filenames : Text → List Adapter → Method h.World (List ScsiDev)
  unfolding wwpn_devs
  get_all_scsi_dev_filenames lun [] = pure []
  get_all_scsi_dev_filenames lun (adapter ∷ adapters) = do
    devno ← lift (or_raise adapter.devno (key_error "devno"))
    wwpns ← lift (or_raise adapter.wwpns (key_error "wwpns"))
    devs ← wwpn_devs lun devno wwpns
    rest ← get_all_scsi_dev_filenames lun adapters
    pure (devs ++ rest)

  unfoldable pub get_kernel_devname : Text → Method h.World Text
  get_kernel_devname dev = do
    resolved ← h.run shell (lit "readlink -e '" ++ (dev ++ lit "'"))
    if resolved.0 == 0
        then pure (strip resolved.1)
        else raise (runtime_error "Kernel device does exist for symlink {}")

  -- one round of the wait for the multipath daemon
  unfoldable pub multipath_of : Text → Method h.World (Option Text)
  multipath_of kernel_dev = do
    listed ← h.run shell (lit "multipath -v 1 -l " ++ kernel_dev)
    let output = strip listed.1
    pure (if listed.0 == 0 && not (is_empty output) then some (last_line output) else none)

  unfoldable pub get_multipath_name : Text → Method h.World (Option Text)
  get_multipath_name path_dev = do
    kernel_dev ← get_kernel_devname path_dev
    poll h device_times (multipath_of kernel_dev)

  -- the map of this path beside the map of the paths before it
  unfoldable pub same_map : Option Text → Option Text → Method h.World Text
  same_map known none =
      raise
        (runtime_error "Multipath map not available for path {}, make sure it's not blacklisted")
  same_map none (some name) = pure name
  same_map (some known) (some name) =
      if text_eq name known
      then pure known
      else raise (runtime_error "Multipath map is not the same across paths of lun {}")

  unfoldable pub check_maps : Option Text → List ScsiDev → Method h.World (Option Text)
  unfolding same_map
  check_maps known [] = pure known
  check_maps known (dev ∷ devs) = do
    name ← get_multipath_name dev.kernel_path
    map_name ← same_map known name
    check_maps (some map_name) devs

  -- _check_multipath; with no path at all, "/dev/mapper/" + None raises
  unfoldable pub check_multipath : Text → List Adapter → Method h.World Text
  check_multipath lun adapters = do
    devs ← get_all_scsi_dev_filenames lun adapters
    name ← check_maps none devs
    map_name ←
        lift (or_raise name (type_error "can only concatenate str (not \"NoneType\") to str"))
    pure (lit "/dev/mapper/" ++ map_name)

  unfoldable pub remove_paths : List ScsiDev → Method h.World (Unit {0})
  remove_paths [] = pure tt
  remove_paths (dev ∷ devs) = do
    timer h shell (lit "multipathd del path " ++ dev.kernel_path) device_times
        "Failed to disable multipath for device {} path {}"
    remove_paths devs

  -- `scsi_devs[0]['kernel_path']`
  abbrev pub first_path : List ScsiDev → Option Text
  first_path [] = none
  first_path (dev ∷ devs) = some dev.kernel_path

  -- _disable_multipath
  unfoldable pub disable_multipath : Text → List Adapter → Method h.World Text
  unfolding remove_paths
  disable_multipath lun adapters = do
    devs ← get_all_scsi_dev_filenames lun adapters
    remove_paths devs
    lift (or_raise (first_path devs) (index_error "list index out of range"))

  unfoldable pub enable_adapters : Text → List Adapter → Method h.World (Unit {0})
  enable_adapters lun [] = pure tt
  enable_adapters lun (adapter ∷ adapters) = do
    enable_lun_paths h shell lun adapter
    enable_adapters lun adapters
