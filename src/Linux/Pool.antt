-- ===== src/Linux/Pool.antt =====
-- StoragePool of the Linux driver (tessia/baselib/guests/linux/storage/pool.py). What the threading
-- library does with a thread is a parameter: starting one gives how many checks will find it alive,
-- and what its function returns or raises.
pub mod Waiting
pub mod Endings
pub mod Activation
pub mod Disks
use tessia_baselib.Prelude.{
  ℕ, zero, suc, ◌==◌, Bool, true, false, ◌||◌, Option, none, some, List, [], ◌∷◌, ◌++◌, Text, lit,
  text_eq, if◌then◌else◌,
}
use tessia_baselib.Python.{
  runtime_error, key_error, out_of_fuel, Outcome, returned, raised, Method, pure, raise, lift,
  modify, or_raise, ◌>>=◌, ◌>>◌,
}
use tessia_baselib.Volume.{Multipath, is_true, truthy, falsy, Specs, Volume, DevPaths}
use tessia_baselib.Linux.Host.{Host}
use tessia_baselib.Linux.Dasd.{DiskDasd, new_dasd}
use tessia_baselib.Linux.Dasd
use tessia_baselib.Linux.Fcp.{DiskFcp, new_fcp}
use tessia_baselib.Linux.Fcp

abbrev mpath_template : Text
mpath_template =
    lit
      "\ndefaults {\n   default_features \"1 queue_if_no_path\"\n   user_friendly_names no\n   path_grouping_policy multibus\n}\n\n"
    ++ lit
        "blacklist {\n   devnode \".*\"\n}\n\nblacklist_exceptions {\n   devnode \"^dasd[a-z]+[0-9]*\"\n   devnode \"^sd[a-z]+[0-9]*\"\n}\n"

-- One entry of `tasks`: its key, and the thread. `_thread_wrap` keeps the exception or the value.
pub record Task : Type 0 where
  pub volume_id : Text
  pub alive : ℕ
  pub ret : Outcome Text

-- `tasks[disk.volume_id] = task`, which replaces the task of an equal id
unfoldable pub set_task : Task → List Task → List Task
set_task t [] = t ∷ []
set_task t (u ∷ us) = if text_eq t.volume_id u.volume_id then t ∷ us else u ∷ set_task t us

-- `disk['specs']['multipath'] is True`, or False where a key is missing
unfoldable pub wants_mpath : Option Specs → Bool
wants_mpath none = false
wants_mpath (some specs) = elim specs.multipath [
  | none ↦ false
  | some is_true ↦ true
  | some truthy ↦ false
  | some falsy ↦ false
]

-- One pass over the tasks: those still alive, and the paths of those that have ended.
unfoldable pub check_tasks : List Task → DevPaths → Outcome (List Task × DevPaths)
check_tasks [] paths = returned ([], paths)
check_tasks (t ∷ ts) paths = elim t.alive [
  | suc n ↦ elim (check_tasks ts paths) [
    | returned (rest, done) ↦ returned (record t { alive = n } ∷ rest, done)
    | raised e ↦ raised e
  ]
  | zero ↦ elim t.ret [
    | returned path ↦ check_tasks ts ((t.volume_id, path) ∷ paths)
    | raised e ↦ raised (runtime_error "Failed to activate disk {}")
  ]
]

module _ (h : Host) where
  pub data AnyDisk : Type 0 where
    dasd : DiskDasd h → AnyDisk
    fcp : DiskFcp h → AnyDisk

  abbrev pub disk_id : AnyDisk → Text
  disk_id (dasd d) = d.volume_id
  disk_id (fcp d) = d.volume_id

  abbrev pub disk_activate : AnyDisk → Method h.World Text
  disk_activate (dasd d) = Dasd.activate h d
  disk_activate (fcp d) = Fcp.activate h d

  pub record StoragePool : Type 0 where
    pub mpath : Bool
    pub disks : List AnyDisk

  -- _create_disk; the handler of the KeyError subscripts `type` again
  unfoldable pub create_disk : Volume → Method h.World AnyDisk
  create_disk parameters = do
    type ← lift (or_raise parameters.type (key_error "type"))
    if text_eq type (lit "DASD")
        then (do d ← new_dasd h parameters; pure (dasd d))
        else if text_eq type (lit "FCP")
        then (do d ← new_fcp h parameters; pure (fcp d))
        else raise (runtime_error "Unknown disk type {}")

  -- the loop of `StoragePool.__init__`
  unfoldable pub add_disks : Bool → List Volume → Method h.World StoragePool
  unfolding create_disk wants_mpath
  add_disks mpath [] = pure (record { mpath = mpath; disks = [] })
  add_disks mpath (v ∷ vs) = do
    disk ← create_disk v
    pool ← add_disks (wants_mpath v.specs || mpath) vs
    pure (record pool { disks = disk ∷ pool.disks })

  unfoldable pub mpath_start : Method h.World (Unit {0})
  mpath_start = do
    shell ← h.open_shell
    h.run shell
        (lit "rm -f /etc/multipath.conf.bak && cp /etc/multipath.conf /etc/multipath.conf.bak")
    written ← h.run shell (lit "echo '" ++ (mpath_template ++ lit "' > /etc/multipath.conf"))
    if written.0 == 0
        then pure tt
        else raise (runtime_error "Failed to create /etc/multipath.conf: %s")
    listed ← h.run shell (lit "systemctl list-unit-files|grep -q '^ *multipathd\\.service'")
    restarted ← h.run shell (
        if listed.0 == 0
        then lit "systemctl restart multipathd.service && systemctl status multipathd.service"
        else lit "/etc/init.d/multipathd restart")
    if restarted.0 == 0
        then pure tt
        else raise (runtime_error "Failed to (re)start multipath daemon")
    h.close shell

  -- the `while True`, for at most `fuel` passes
  unfoldable pub wait : ℕ → List Task → DevPaths → Method h.World DevPaths
  unfolding check_tasks
  wait zero tasks paths = raise out_of_fuel
  wait (suc fuel) tasks paths = do
    modify h.sleep_half
    round ← lift (check_tasks tasks paths)
    elim round.0 [ [] ↦ pure round.1 | t ∷ ts ↦ wait fuel (t ∷ ts) round.1 ]

  module _ (spawn : Method h.World Text → h.World → (ℕ × Outcome Text) × h.World) where
    -- the loop that starts the threads
    unfoldable pub start_tasks : List AnyDisk → List Task → h.World → List Task × h.World
    unfolding set_task
    start_tasks [] tasks w = (tasks, w)
    start_tasks (d ∷ ds) tasks w =
        let ((alive, ret), w') = spawn (disk_activate d) w in
        start_tasks ds (set_task (record { volume_id = disk_id d; alive = alive; ret = ret }) tasks)
          w'

    -- StoragePool.activate
    unfoldable pub activate : ℕ → StoragePool → Method h.World DevPaths
    unfolding start_tasks wait mpath_start
    activate fuel pool = do
      if pool.mpath then mpath_start else pure tt
      tasks ← λ w. let (ts, w') = start_tasks pool.disks [] w in (returned ts, w')
      wait fuel tasks []
