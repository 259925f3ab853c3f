-- ===== src/Linux/Pool/Activation.antt =====
-- StoragePool.activate as a whole: every disk of the pool has its path, or a failure is reported.
use tessia_baselib.Prelude.{
  ℕ, suc, ◌≡◌, refl, sym, subst, ap, ◌∙◌, Bool, true, false, Bool-cases, inl, inr, ◌||◌, some, List,
  [], ◌∷◌, Text, text_eq, text_eq_refl, text_eq→≡, All, All-map, arith, if◌then◌else◌,
}
use tessia_baselib.Python.{Outcome, returned, raised, Method, pure, ◌>>=◌}
use tessia_baselib.Volume.{DevPaths, dev_path}
use tessia_baselib.Linux.Host.{Host}
use tessia_baselib.Linux.Pool.{
  Task, AnyDisk, disk_id, StoragePool, set_task, start_tasks, mpath_start, activate,
}
use tessia_baselib.Linux.Pool.Waiting.{has_task, Distinct, path_of, EndsWithin, Succeeds}
use tessia_baselib.Linux.Pool.Endings.{failure, some_fails, wait-Succeeds, wait_fails}

or_true : (b : Bool) → b || true ≡ true
or_true true = refl
or_true false = refl

has_task-set_task :
    (t : Task) (ts : List Task) (k : Text)
    → has_task (set_task t ts) k ≡ text_eq t.volume_id k || has_task ts k
unfolding has_task set_task
has_task-set_task t [] k = refl
has_task-set_task t (u ∷ us) k = elim (Bool-cases (text_eq t.volume_id u.volume_id)) [
  | inl y ↦
      let e : text_eq t.volume_id k ≡ text_eq u.volume_id k =
        ap (λ i. text_eq i k) (text_eq→≡ _ _ y) in
      rw y (ground arith)
  | inr n ↦ let ih = has_task-set_task t us k in rw n (ground arith)
]

set_task-Distinct : (t : Task) (ts : List Task) → Distinct ts → Distinct (set_task t ts)
unfolding set_task has_task
set_task-Distinct t [] d = (refl, tt)
set_task-Distinct t (u ∷ us) d = elim (Bool-cases (text_eq t.volume_id u.volume_id)) [
  | inl y ↦ rw y (subst (λ i. has_task us i ≡ false) (sym (text_eq→≡ _ _ y)) d.0, d.1)
  | inr n ↦ rw n (has_task-set_task t us u.volume_id ∙ rw (n, d.0) refl, set_task-Distinct t us d.1)
]

path_of-Succeeds :
    (ts : List Task) (k : Text)
    → All Succeeds ts
    → has_task ts k ≡ true
    → (path : Text) × (path_of ts [] k ≡ some path)
unfolding path_of has_task
path_of-Succeeds [] k s m = absurd (ground arith)
path_of-Succeeds (t ∷ ts) k s m = elim (Bool-cases (text_eq t.volume_id k)) [
  | inl y ↦ (s.0.0, rw (y, s.0.1) refl)
  | inr n ↦ let (path, e) = path_of-Succeeds ts k s.1 (ground arith) in (path, rw n e)
]

module _ (h : Host) (spawn : Method h.World Text → h.World → (ℕ × Outcome Text) × h.World) where
  start_tasks-Distinct :
      (ds : List (AnyDisk h)) (ts : List Task) (w : h.World)
      → Distinct ts
      → Distinct (start_tasks h spawn ds ts w).0
  unfolding start_tasks
  start_tasks-Distinct [] ts w d = d
  start_tasks-Distinct (x ∷ xs) ts w d = start_tasks-Distinct xs _ _ (set_task-Distinct _ ts d)

  start_tasks_keeps :
      (ds : List (AnyDisk h)) (ts : List Task) (w : h.World) (k : Text)
      → has_task ts k ≡ true
      → has_task (start_tasks h spawn ds ts w).0 k ≡ true
  unfolding start_tasks
  start_tasks_keeps [] ts w k e = e
  start_tasks_keeps (x ∷ xs) ts w k e =
      start_tasks_keeps xs _ _ k (has_task-set_task _ ts k ∙ rw e (or_true _))

  start_tasks-All :
      (ds : List (AnyDisk h)) (ts : List Task) (w : h.World)
      → All (λ d. has_task (start_tasks h spawn ds ts w).0 (disk_id h d) ≡ true) ds
  unfolding start_tasks
  start_tasks-All [] ts w = tt
  start_tasks-All (x ∷ xs) ts w = (
    start_tasks_keeps xs _ _ (disk_id h x)
        (has_task-set_task _ ts (disk_id h x) ∙ rw (text_eq_refl (disk_id h x)) refl),
    start_tasks-All xs _ _,
  )

  -- The tasks of a pool whose multipath daemon, if it needs one, has been started.
  pub record Started (pool : StoragePool h) (w : h.World) : Type 0 where
    pub prepared : h.World
    pub prepares : (if pool.mpath then mpath_start h else pure tt) w ≡ (returned tt, prepared)

  abbrev pub tasks_of : {pool : StoragePool h} {w : h.World} → Started pool w → List Task
  tasks_of {pool} s = (start_tasks h spawn pool.disks [] s.prepared).0

  pub record HasPaths (fuel : ℕ) (pool : StoragePool h) (w : h.World) : Type 0 where
    pub result : DevPaths
    pub end : h.World
    pub ends : activate h spawn fuel pool w ≡ (returned result, end)
    pub own : All (λ d. (path : Text) × (dev_path result (disk_id h d) ≡ some path)) pool.disks

  -- If the multipath configuration, where it is needed, succeeds and every thread returns, activate
  -- returns a dictionary with a path for every disk of the pool, after as many passes as the slowest
  -- thread is found alive and one more.
  pub activate-HasPaths :
      (n : ℕ) (pool : StoragePool h) (w : h.World) (s : Started pool w)
      → All (EndsWithin n) (tasks_of s)
      → All Succeeds (tasks_of s)
      → HasPaths (suc n) pool w
  unfolding activate ◌>>=◌
  activate-HasPaths n pool w s e k =
      let r =
        wait-Succeeds h n (tasks_of s) [] (start_tasks h spawn pool.disks [] s.prepared).1
          (start_tasks-Distinct pool.disks [] s.prepared tt) e k in
      record {
        result = r.result;
        end = r.end;
        ends = rw s.prepares r.ends;
        own =
            All-map _ _ pool.disks
              (λ d m.
                let (path, q) = path_of-Succeeds (tasks_of s) (disk_id h d) k m in
                (path, r.same_paths (disk_id h d) ∙ q))
              (start_tasks-All pool.disks [] s.prepared);
      }

  -- If the multipath configuration, where it is needed, succeeds and the thread that a task holds
  -- raises, activate raises RuntimeError, after no more passes than the slowest thread is found alive
  -- and one more.
  pub activate_fails :
      (n : ℕ) (pool : StoragePool h) (w : h.World) (s : Started pool w)
      → All (EndsWithin n) (tasks_of s)
      → some_fails (tasks_of s) ≡ true
      → (activate h spawn (suc n) pool w).0 ≡ raised failure
  unfolding activate ◌>>=◌
  activate_fails n pool w s e f = rw s.prepares (wait_fails h n (tasks_of s) [] _ e f)
