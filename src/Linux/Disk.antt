-- ===== src/Linux/Disk.antt =====
-- DiskBase (tessia/baselib/guests/linux/storage/disk.py): what DASD and FCP disks share.
use tessia_baselib.Prelude.{ℕ, Option, none, some, List, [], ◌∷◌, ◌++◌, Text, lit}
use tessia_baselib.Python.{
  Error, runtime_error, key_error, Method, pure, raise, lift, or_raise, ◌>>=◌, ◌>>◌,
}
use tessia_baselib.Volume.{Volume}
use tessia_baselib.Linux.Host.{Host}
use tessia_baselib.Linux.Timer.{poll, succeeds}

-- the waits of every polling loop on a device
abbrev pub device_times : List ℕ
device_times = 0 ∷ 1 ∷ 5 ∷ 15 ∷ 30 ∷ 60 ∷ []

module _ (h : Host) where
  -- `DiskBase.__init__`: the volume id, and the shell of this disk
  unfoldable pub new_base : Volume → Method h.World (Text × h.Shell)
  new_base parameters = do
    volume_id ← lift (or_raise parameters.volume_id (key_error "volume_id"))
    shell ← h.open_shell
    pure (volume_id, shell)

  unfoldable pub unless_found : Error → Option (Unit {0}) → Method h.World (Unit {0})
  unless_found e none = raise e
  unless_found e (some done) = pure tt

  unfoldable pub enable_device : h.Shell → Text → Method h.World (Unit {0})
  unfolding unless_found
  enable_device shell devicenr = do
    h.run shell (lit "echo free " ++ (devicenr ++ lit " > /proc/cio_ignore"))
    active ← poll h device_times (succeeds h shell (lit "chccwdev -e " ++ devicenr))
    unless_found (runtime_error "Failed to activate device devicenr={}: {}") active
