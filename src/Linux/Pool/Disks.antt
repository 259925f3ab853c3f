-- ===== src/Linux/Pool/Disks.antt =====
-- The disks that StoragePool.__init__ creates from the volumes it is given (storage/pool.py).
use tessia_baselib.Prelude.{
  ℕ, suc, All, arith, ◌≡◌, ◌↔◌, ◌⊎◌, inl, inr, refl, true, Bool-cases, subst, Bool, false, ◌||◌,
  Option, none, some, List, [], ◌∷◌, map, Text, lit, text_eq,
}
use tessia_baselib.Python.{
  Error, Outcome, raised, returned, Method, pure, raise, or_raise, key_error,
}
use tessia_baselib.Python.Rules.{
  Post, Triple, Triple-pure, Triple-raise, Triple-if, Triple-bind, Triple-call, Triple-lift,
}
use tessia_baselib.Volume.{Multipath, is_true, truthy, falsy, Specs, DevPaths, dev_path, Volume}
use tessia_baselib.Linux.Host.{Host}
use tessia_baselib.Linux.Disk.{new_base}
use tessia_baselib.Linux.Dasd.{new_dasd}
use tessia_baselib.Linux.Fcp.{has_path, new_fcp}
use tessia_baselib.Linux.Pool.{
  AnyDisk, dasd, fcp, disk_id, StoragePool, wants_mpath, create_disk, add_disks, activate,
}
use tessia_baselib.Linux.Pool.Waiting.{EndsWithin, Succeeds}
use tessia_baselib.Linux.Pool.Activation.{Started, tasks_of, activate-HasPaths}

-- the volume's specification has multipath, as the value True
pub record AsksMpath (v : Volume) : Type 0 where
  pub specs : Specs
  pub has_specs : v.specs ≡ some specs
  pub is_set : specs.multipath ≡ some is_true

-- Some volume of the list asks for multipath.
pub data SomeAsks : List Volume → Type 0 where
  this : {v : Volume} {vs : List Volume} → AsksMpath v → SomeAsks (v ∷ vs)
  later : {v : Volume} {vs : List Volume} → SomeAsks vs → SomeAsks (v ∷ vs)

multipath_set :
    (specs : Specs) (m : Option Multipath)
    → specs.multipath ≡ m
    → wants_mpath (some specs) ≡ true
    → specs.multipath ≡ some is_true
unfolding wants_mpath
multipath_set specs none e h = absurd (ground (arith, e, h))
multipath_set specs (some is_true) e h = e
multipath_set specs (some truthy) e h = absurd (ground (arith, e, h))
multipath_set specs (some falsy) e h = absurd (ground (arith, e, h))

wants-AsksMpath : (v : Volume) (o : Option Specs) → v.specs ≡ o → wants_mpath o ≡ true → AsksMpath v
unfolding wants_mpath
wants-AsksMpath v none e h = absurd (cc h)
wants-AsksMpath v (some specs) e h = record {
  specs = specs;
  has_specs = e;
  is_set = multipath_set specs specs.multipath refl h;
}

AsksMpath-wants : (v : Volume) → AsksMpath v → wants_mpath v.specs ≡ true
unfolding wants_mpath
AsksMpath-wants v a = rw (a.has_specs, a.is_set) refl

-- the flag after the next volume, in terms of the flag before it
flag_step :
    (v : Volume) (vs : List Volume) (mpath : Bool)
    → (wants_mpath v.specs || mpath ≡ true) ⊎ SomeAsks vs
    → (mpath ≡ true) ⊎ SomeAsks (v ∷ vs)
flag_step v vs mpath (inr k) = inr (later k)
flag_step v vs mpath (inl k) = elim (Bool-cases (wants_mpath v.specs)) [
  | inl y ↦ inr (this (wants-AsksMpath v v.specs refl y))
  | inr n ↦ inl (ground (arith, k, n))
]

flag_back :
    (v : Volume) (vs : List Volume) (mpath : Bool)
    → (mpath ≡ true) ⊎ SomeAsks (v ∷ vs)
    → (wants_mpath v.specs || mpath ≡ true) ⊎ SomeAsks vs
flag_back v vs mpath (inl k) = inl (ground (arith, k))
flag_back v vs mpath (inr (this a)) = inl (ground (arith, AsksMpath-wants v a))
flag_back v vs mpath (inr (later k)) = inr k

none_asks : (mpath : Bool) → (mpath ≡ true) ⊎ SomeAsks [] → mpath ≡ true
none_asks mpath (inl k) = k
none_asks mpath (inr x) = elim x [ ]

module _ (h : Host) where
  abbrev Anywhere : h.World → Type 0
  Anywhere w = Unit

  abbrev AnyError : Error → h.World → Type 0
  AnyError e w = Unit

  new_base_id :
      (v : Volume) → Triple Anywhere (new_base h v) (λ base w. v.volume_id ≡ some base.0) AnyError
  unfolding new_base
  new_base_id v =
      Triple-lift _ _
        (λ id e.
          Triple-bind _ _ (Triple-call h.open_shell λ x s s' p k. tt)
            λ shell. Triple-pure _ λ s k. found v.volume_id id e)
        (λ e s p q. tt)
    where
      found :
          (o : Option Text) (id : Text)
          → or_raise o (key_error "volume_id") ≡ returned id
          → o ≡ some id
      found none id e = cc
      found (some x) id e = cc

  create_disk_id :
      (v : Volume)
      → Triple Anywhere (create_disk h v) (λ d w. v.volume_id ≡ some (disk_id h d)) AnyError
  unfolding create_disk new_dasd new_fcp
  create_disk_id v =
      Triple-lift _ _
        (λ type e.
          Triple-if (text_eq type (lit "DASD")) _ _
            (λ y.
              Triple-bind _ _ (Triple-bind _ _ (new_base_id v) λ base. Triple-pure _ λ s k. k)
                λ d. Triple-pure (dasd d) λ s k. k)
            (λ n.
              Triple-if (text_eq type (lit "FCP")) _ (raise _)
                (λ y.
                  Triple-bind _ _
                    (Triple-bind _ _ (new_base_id v) λ base.
                      Triple-lift _ _
                        (λ specs e.
                          Triple-lift _ _
                            (λ adapters e.
                              Triple-if (has_path adapters) (pure _) (raise _)
                                (λ y. Triple-pure _ λ s k. k) (λ n. Triple-raise _ λ s k. tt))
                            (λ e s p q. tt))
                        (λ e s p q. tt))
                    λ d. Triple-pure (fcp d) λ s k. k)
                (λ n. Triple-raise _ λ s k. tt)))
        (λ e s p q. tt)

  -- What the pool holds for its volumes.
  pub record Holds (mpath : Bool) (volumes : List Volume) (pool : StoragePool h) : Type 0 where
    pub ids : map (λ v. v.volume_id) volumes ≡ map (λ d. some (disk_id h d)) pool.disks
    pub flag : (pool.mpath ≡ true) ↔ ((mpath ≡ true) ⊎ SomeAsks volumes)

  -- A pool that is created has one disk for each volume, in their order and with their ids. Its multipath
  -- flag is set exactly if it was to be, or the specification of some volume has multipath as the value
  -- True; another value that counts as true does not set it.
  pub add_disks-Holds :
      (mpath : Bool) (volumes : List Volume)
      → Triple Anywhere (add_disks h mpath volumes) (λ pool w. Holds mpath volumes pool) AnyError
  unfolding add_disks
  add_disks-Holds mpath [] =
      Triple-pure _ λ s k. record { ids = refl; flag = (inl, none_asks mpath) }
  add_disks-Holds mpath (v ∷ vs) =
      Triple-bind {R = λ d w. v.volume_id ≡ some (disk_id h d)} _ _ (create_disk_id v) λ d. record {
        at = λ s k.
            (Triple-bind _ _ (add_disks-Holds (wants_mpath v.specs || mpath) vs) λ pool.
                Triple-pure _ λ t a. record {
                  ids = cc (k, a.ids);
                  flag = (
                    λ e. flag_step v vs mpath (a.flag.0 e),
                    λ e. a.flag.1 (flag_back v vs mpath e),
                  );
                }).at
              s tt;
      }

module _ (h : Host) (spawn : Method h.World Text → h.World → (ℕ × Outcome Text) × h.World) where
  -- a path under the id of a volume
  abbrev pub HasPath : DevPaths → Volume → Type 0
  HasPath result v =
      (id : Text) × (path : Text) × (v.volume_id ≡ some id) × (dev_path result id ≡ some path)

  paths_by_id :
      (result : DevPaths) (volumes : List Volume) (disks : List (AnyDisk h))
      → map (λ v. v.volume_id) volumes ≡ map (λ d. some (disk_id h d)) disks
      → All (λ d. (path : Text) × (dev_path result (disk_id h d) ≡ some path)) disks
      → All (HasPath result) volumes
  paths_by_id result [] disks e k = tt
  paths_by_id result (v ∷ vs) [] e k = absurd (ground arith)
  paths_by_id result (v ∷ vs) (d ∷ ds) e k =
      ((disk_id h d, k.0.0, cc (e), k.0.1), paths_by_id result vs ds (cc (e)) k.1)

  pub record Activated (fuel : ℕ) (volumes : List Volume) (pool : StoragePool h) (w : h.World)
      : Type 0 where
    pub result : DevPaths
    pub end : h.World
    pub ends : activate h spawn fuel pool w ≡ (returned result, end)
    pub have_paths : All (HasPath result) volumes

  -- If a pool has been created from volumes, its multipath configuration, where it is needed, succeeds,
  -- and every thread returns, activate returns a dictionary in which each of the volumes finds a path
  -- under its id, after as many passes as the slowest thread is found alive and one more.
  pub pool-Activated :
      (n : ℕ) (volumes : List Volume) (pool : StoragePool h) (w₀ w : h.World)
      → add_disks h false volumes w₀ ≡ (returned pool, w)
      → (s : Started h spawn pool w) → All (EndsWithin n) (tasks_of h spawn s)
      → All Succeeds (tasks_of h spawn s)
      → Activated (suc n) volumes pool w
  pool-Activated n volumes pool w₀ w c s e k =
      let a = activate-HasPaths h spawn n pool w s e k in
      let held : Holds h false volumes pool =
        holds (add_disks h false volumes w₀).0 _ c ((add_disks-Holds h false volumes).at w₀ tt) in
      record {
        result = a.result;
        end = a.end;
        ends = a.ends;
        have_paths = paths_by_id a.result volumes pool.disks held.ids a.own;
      }
    where
      holds :
          (r : Outcome (StoragePool h)) (v : h.World)
          → ◌≡◌ {A = Outcome (StoragePool h) × h.World} (r, v) (returned pool, w)
          → Post (λ p w. Holds h false volumes p) (λ e w. Unit) r v
          → Holds h false volumes pool
      holds (returned p) v e k = subst (Holds h false volumes) (cc (e)) k
      holds (raised x) v e k = absurd (ground arith)
