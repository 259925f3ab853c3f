-- ===== src/Linux/Pool/Waiting.antt =====
-- The loop of StoragePool.activate that waits for its threads: it ends, with the path of every task
-- or with the report of a failure.
use tessia_baselib.Prelude.{
  ℕ, zero, suc, ◌≤◌, ◌≡◌, refl, subst, ◌∙◌, inl, inr, Bool, false, Bool-cases, ◌||◌, Option, none,
  some, List, [], ◌∷◌, Text, text_eq, text_eq→≡, All, arith, if◌then◌else◌,
}
use tessia_baselib.Python.{Outcome, returned, raised}
use tessia_baselib.Volume.{DevPaths, dev_path}
use tessia_baselib.Linux.Pool.{Task, check_tasks}

-- Whether a dictionary of tasks has an id.
unfoldable pub has_task : List Task → Text → Bool
has_task [] k = false
has_task (t ∷ ts) k = text_eq t.volume_id k || has_task ts k

abbrev pub Distinct : List Task → Type 0
Distinct [] = Unit
Distinct (t ∷ ts) = (has_task ts t.volume_id ≡ false) × Distinct ts

abbrev value_or : Outcome Text → Option Text → Option Text
value_or (returned path) o = some path
value_or (raised e) o = o

-- What the dictionary of paths says about `k` when all tasks have ended well.
unfoldable pub path_of : List Task → DevPaths → Text → Option Text
unfolding dev_path
path_of [] paths k = dev_path paths k
path_of (t ∷ ts) paths k = if text_eq t.volume_id k then value_or t.ret none else path_of ts paths k

abbrev pub EndsWithin : ℕ → Task → Type 0
EndsWithin n t = t.alive ≤ n

abbrev pub Succeeds : Task → Type 0
Succeeds t = (path : Text) × (t.ret ≡ returned path)

-- What a pass over tasks makes of them.
pub record Passed (n : ℕ) (tasks : List Task) (paths : DevPaths) (rest : List Task)
    (done : DevPaths) : Type 0 where
  pub distinct : Distinct rest
  pub sooner : All (λ t. suc t.alive ≤ n) rest
  pub succeed : All Succeeds rest
  pub same_paths : (k : Text) → path_of rest done k ≡ path_of tasks paths k
  pub no_new : (k : Text) → has_task tasks k ≡ false → has_task rest k ≡ false

has_task-later :
    (t : Task) (ts : List Task) (k : Text) → has_task (t ∷ ts) k ≡ false → has_task ts k ≡ false
unfolding has_task
has_task-later t ts k e = ground arith

path_of-absent :
    (ts : List Task) (paths : DevPaths) (k : Text)
    → has_task ts k ≡ false
    → path_of ts paths k ≡ dev_path paths k
unfolding path_of has_task
path_of-absent [] paths k e = refl
path_of-absent (t ∷ ts) paths k e =
    let other : text_eq t.volume_id k ≡ false = ground arith in
    rw other (path_of-absent ts paths k (has_task-later t ts k e))

path_of-other :
    (ts : List Task) (paths : DevPaths) (j k p : Text)
    → text_eq j k ≡ false
    → path_of ts ((j, p) ∷ paths) k ≡ path_of ts paths k
unfolding path_of dev_path
path_of-other [] paths j k p e = rw e refl
path_of-other (t ∷ ts) paths j k p e = rw (path_of-other ts paths j k p e) refl

path_of-ended :
    (t : Task) (ts : List Task) (paths : DevPaths) (path k : Text)
    → t.ret ≡ returned path
    → has_task ts t.volume_id ≡ false
    → path_of ts ((t.volume_id, path) ∷ paths) k ≡ path_of (t ∷ ts) paths k
unfolding path_of dev_path
path_of-ended t ts paths path k r d = elim (Bool-cases (text_eq t.volume_id k)) [
  | inl y ↦
      path_of-absent ts ((t.volume_id, path) ∷ paths) k
        (subst (λ i. has_task ts i ≡ false) (text_eq→≡ _ _ y) d)
      ∙ rw (y, r) refl
  | inr n ↦ rw (n, path_of-other ts paths t.volume_id k path n) refl
]

pub record Pass (n : ℕ) (tasks : List Task) (paths : DevPaths) : Type 0 where
  pub rest : List Task
  pub done : DevPaths
  pub checked : check_tasks tasks paths ≡ returned (rest, done)
  pub passed : Passed n tasks paths rest done

-- the first task has ended
ended :
    (n : ℕ) (t : Task) (ts : List Task) (paths : DevPaths) (path : Text)
    → t.alive ≡ 0
    → t.ret ≡ returned path
    → has_task ts t.volume_id ≡ false
    → Pass n ts ((t.volume_id, path) ∷ paths)
    → Pass n (t ∷ ts) paths
unfolding check_tasks
ended n t ts paths path a r d p = record {
  rest = p.rest;
  done = p.done;
  checked = rw (a, r) p.checked;
  passed = record {
    distinct = p.passed.distinct;
    sooner = p.passed.sooner;
    succeed = p.passed.succeed;
    same_paths = λ k. p.passed.same_paths k ∙ path_of-ended t ts paths path k r d;
    no_new = λ k e. p.passed.no_new k (has_task-later t ts k e);
  };
}

-- the first task goes on
running :
    (n m : ℕ) (t : Task) (ts : List Task) (paths : DevPaths)
    → t.alive ≡ suc m
    → t.alive ≤ n
    → Succeeds t
    → has_task ts t.volume_id ≡ false
    → Pass n ts paths
    → Pass n (t ∷ ts) paths
unfolding check_tasks has_task path_of
running n m t ts paths a l s d p = record {
  rest = record t { alive = m } ∷ p.rest;
  done = p.done;
  checked = rw (a, p.checked) refl;
  passed = record {
    distinct = (p.passed.no_new t.volume_id d, p.passed.distinct);
    sooner = (subst (λ x. x ≤ n) a l, p.passed.sooner);
    succeed = (s, p.passed.succeed);
    same_paths = λ k. rw (p.passed.same_paths k) refl;
    no_new = λ k e. let later = p.passed.no_new k (has_task-later t ts k e) in ground arith;
  };
}

pub pass :
    (n : ℕ) (tasks : List Task) (paths : DevPaths)
    → Distinct tasks
    → All (EndsWithin n) tasks
    → All Succeeds tasks
    → Pass n tasks paths
unfolding check_tasks
pass n [] paths d e s = record {
  rest = [];
  done = paths;
  checked = refl;
  passed = record {
    distinct = tt;
    sooner = tt;
    succeed = tt;
    same_paths = λ k. refl;
    no_new = λ k a. a;
  };
}
pass n (t ∷ ts) paths d e s = go t.alive refl (pass n ts _ d.1 e.1 s.1) (pass n ts _ d.1 e.1 s.1)
  where
    go :
        (a : ℕ)
        → t.alive ≡ a
        → Pass n ts ((t.volume_id, s.0.0) ∷ paths)
        → Pass n ts paths
        → Pass n (t ∷ ts) paths
    go zero z p q = ended n t ts paths s.0.0 z s.0.1 d.0 p
    go (suc m) z p q = running n m t ts paths z e.0 s.0 d.0 q
