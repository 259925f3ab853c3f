-- ===== src/Linux/Fcp/Paths.antt =====
-- The paths of an FCP disk (tessia/baselib/guests/linux/storage/disk_fcp.py): finding their kernel
-- devices, and activating ports and LUNs.
use tessia_baselib.Prelude.{
  ◌==◌, Bool, true, false, not, ◌&&◌, ◌||◌, Option, none, some, List, [], ◌∷◌, ◌++◌, Text, lit,
  text_eq, strip, split, last, starts_with, if◌then◌else◌,
}
use tessia_baselib.Python.{
  runtime_error, key_error, index_error, Outcome, Method, pure, raise, lift, or_raise,
  except_runtime, ◌>>=◌, ◌>>◌,
}
use tessia_baselib.Volume.{Adapter}
use tessia_baselib.Linux.Host.{Host}
use tessia_baselib.Linux.Timer.{poll, timer}
use tessia_baselib.Linux.Disk.{device_times, enable_device}

abbrev pub fcp_syspath : Text
fcp_syspath = lit "/sys/bus/ccw/drivers/zfcp"

unfoldable pub adapter_path : Text → Text
adapter_path devno = fcp_syspath ++ (lit "/" ++ devno)

-- "[ -e '{}/{}' ]"
unfoldable pub exists_cmd : Text → Text → Text
exists_cmd dir name = lit "[ -e '" ++ (dir ++ (lit "/" ++ (name ++ lit "' ]")))

unfoldable pub is_empty : Text → Bool
is_empty [] = true
is_empty (c ∷ cs) = false

-- `output.split()[-1]`
unfoldable pub last_word : Text → Outcome Text
last_word output = or_raise (last (split output)) (index_error "list index out of range")

-- "{}/{}/{}"
unfoldable pub fcp_path : Text → Text → Text → Text
fcp_path devno wwpn lun = devno ++ (lit "/" ++ (wwpn ++ (lit "/" ++ lun)))

module _ (h : Host) (shell : h.Shell) where
  -- One round of the loop on lsscsi; the last word is the kernel device, or - if there is none.
  unfoldable pub kernel_device : Text → Method h.World (Option Text)
  kernel_device scsi_path = do
    listed ← h.run shell (lit "lsscsi " ++ scsi_path)
    let output = strip listed.1
    if listed.0 == 0 && not (is_empty output)
        then (do
          name ← lift (last_word output)
          pure (if text_eq name (lit "-") then none else some name))
        else pure none

  unfoldable pub device_found : Option Text → Method h.World Text
  device_found none =
      raise (
        runtime_error "lsscsi failed to return a valid kernel device for path {}/{}/{}, output: {}")
  device_found (some name) = pure name

  -- _get_scsi_dev_filename
  unfoldable pub get_scsi_dev_filename : Text → Text → Text → Method h.World Text
  unfolding device_found
  get_scsi_dev_filename devno wwpn lun = do
    found ←
        h.run shell
          (lit "lszfcp -D -b " ++ (devno ++ (lit " -p " ++ (wwpn ++ (lit " -l " ++ lun)))))
    let output = strip found.1
    if not (found.0 == 0) || is_empty output || starts_with output (lit "Error:")
        then raise (runtime_error "scsi path not found for path {}/{}/{}")
        else (do
          scsi_path ← lift (last_word output)
          device ← poll h device_times (kernel_device scsi_path)
          device_found device)

  unfoldable pub is_wwpn_active : Text → Text → Method h.World Bool
  is_wwpn_active devno wwpn = do
    checked ← h.run shell (exists_cmd (adapter_path devno) wwpn)
    pure (checked.0 == 0)

  unfoldable pub activate_wwpn : Text → Text → Method h.World (Unit {0})
  activate_wwpn devno wwpn = do
    let path = adapter_path devno
    old ← h.run shell (exists_cmd path (lit "port_add"))
    h.run shell (
        if old.0 == 0
        then lit "echo '" ++ (wwpn ++ (lit "' > " ++ (path ++ lit "/port_add")))
        else lit "[ -e '"
          ++ (path ++ (lit "/port_rescan' ] && echo 1 > " ++ (path ++ lit "/port_rescan"))))
    timer h shell (exists_cmd path wwpn) (0 ∷ 1 ∷ 3 ∷ 5 ∷ 30 ∷ [])
        "Failed to add port {} to adapter {}, check your storage configuration"

  unfoldable pub check_adapter_active : Text → Method h.World (Unit {0})
  check_adapter_active devno =
      timer h shell (lit "[ -e '" ++ (adapter_path devno ++ lit "' ]")) (0 ∷ 1 ∷ 3 ∷ 5 ∷ 30 ∷ [])
        "Adapter {} could not be activated"

  unfoldable pub is_lun_active : Text → Text → Text → Method h.World Bool
  is_lun_active devno wwpn lun =
      except_runtime (do get_scsi_dev_filename devno wwpn lun; pure true) (pure false)

  -- one round of the wait for a new LUN
  unfoldable pub lun_up : Text → Text → Text → Method h.World (Option (Unit {0}))
  lun_up devno wwpn lun =
      except_runtime (do get_scsi_dev_filename devno wwpn lun; pure (some tt)) (pure none)

  -- the LUN did not come up: find out why
  unfoldable pub lun_failed : Text → Text → Text → Option (Unit {0}) → Method h.World (Unit {0})
  lun_failed devno wwpn lun (some done) = pure tt
  lun_failed devno wwpn lun none = do
    failed ← h.run shell (
        lit "cat "
        ++ (adapter_path devno ++ (lit "/" ++ (wwpn ++ (lit "/" ++ (lun ++ lit "/failed"))))))
    if failed.0 == 0 && text_eq (strip failed.1) (lit "1")
        then raise
            (runtime_error "Failed to add LUN {} under {}/{}, check your storage configuration")
        else raise (runtime_error "FCP path {}/{}/{} didn't come up after adding LUN")

  unfoldable pub activate_lun : Text → Text → Text → Method h.World (Unit {0})
  unfolding lun_failed
  activate_lun devno wwpn lun = do
    added ← h.run shell (
        lit "echo '"
        ++ (lun ++ (lit "' > " ++ (adapter_path devno ++ (lit "/" ++ (wwpn ++ lit "/unit_add"))))))
    if added.0 == 0
        then pure tt
        else raise (runtime_error "Failed to activate LUN {} in WWPN {}:{}")
    found ← poll h device_times (lun_up devno wwpn lun)
    lun_failed devno wwpn lun found

  -- the body of the loop over the wwpns of an adapter
  unfoldable pub enable_path : Text → Text → Text → Method h.World (Unit {0})
  enable_path devno lun wwpn = do
    port ← is_wwpn_active devno wwpn
    if port then pure tt else activate_wwpn devno wwpn
    unit ← is_lun_active devno wwpn lun
    if unit then pure tt else activate_lun devno wwpn lun

  unfoldable pub enable_paths : Text → Text → List Text → Method h.World (Unit {0})
  enable_paths devno lun [] = pure tt
  enable_paths devno lun (wwpn ∷ wwpns) = do
    enable_path devno lun wwpn
    enable_paths devno lun wwpns

  -- _enable_lun_paths
  unfoldable pub enable_lun_paths : Text → Adapter → Method h.World (Unit {0})
  enable_lun_paths lun adapter = do
    devno ← lift (or_raise adapter.devno (key_error "devno"))
    enable_device h shell devno
    check_adapter_active devno
    wwpns ← lift (or_raise adapter.wwpns (key_error "wwpns"))
    enable_paths devno lun wwpns
