-- ===== src/Linux/Dasd.antt =====
-- DiskDasd (tessia/baselib/guests/linux/storage/disk_dasd.py).
pub mod Activation
use tessia_baselib.Prelude.{ℕ, ◌==◌, List, [], ◌∷◌, ◌++◌, Text, lit, remove_0x, if◌then◌else◌}
use tessia_baselib.Python.{Method, pure, ◌>>=◌, ◌>>◌}
use tessia_baselib.Volume.{Volume}
use tessia_baselib.Linux.Host.{Host}
use tessia_baselib.Linux.Timer.{timer}
use tessia_baselib.Linux.Disk.{new_base, enable_device}

abbrev pub dasd_devpath : Text
dasd_devpath = lit "/dev/disk/by-path/ccw-0.0."

module _ (h : Host) where
  pub record DiskDasd : Type 0 where
    pub volume_id : Text
    pub shell : h.Shell
    pub devicenr : Text

  unfoldable pub new_dasd : Volume → Method h.World DiskDasd
  new_dasd parameters = do
    base ← new_base h parameters
    pure (record { volume_id = base.0; shell = base.1; devicenr = remove_0x base.0 })

  abbrev pub check_cmd : DiskDasd → Text
  check_cmd d = lit "readlink -e '" ++ (dasd_devpath ++ (d.devicenr ++ lit "'"))

  -- the device is not attached yet
  unfoldable pub attach : DiskDasd → Method h.World (Unit {0})
  attach d = do
    enable_device h d.shell d.devicenr
    timer h d.shell (check_cmd d) (0 ∷ 1 ∷ 5 ∷ 15 ∷ []) "Failed to enable device {}"

  unfoldable pub activate : DiskDasd → Method h.World Text
  unfolding attach
  activate d = do
    checked ← h.run d.shell (check_cmd d)
    if checked.0 == 0 then pure tt else attach d
    pure (dasd_devpath ++ d.devicenr)
