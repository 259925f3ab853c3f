-- ===== src/Linux/Fcp/SameMap.antt =====
-- The multipath map that DiskFcp._check_multipath returns belongs to every path (disk_fcp.py).
use tessia_baselib.Prelude.{
  arith, ◌≡◌, ◌⊎◌, refl, sym, ◌∙◌, subst, Bool-cases, inl, inr, Option, none, some, List, [], ◌∷◌,
  ◌++◌, Text, lit, text_eq, text_eq→≡,
}
use tessia_baselib.Python.{Outcome, returned, raised, or_raise, type_error, ◌>>=◌}
use tessia_baselib.Python.Rules.{Post, Triple, Triple-bind, Triple-lift, Triple-pure}
use tessia_baselib.Volume.{Adapter}
use tessia_baselib.Linux.Host.{Host}
use tessia_baselib.Linux.Fcp.Listed.{AllDevs, get_all-AllDevs}
use tessia_baselib.Linux.Fcp.Maps.{
  ScsiDev, get_all_scsi_dev_filenames, get_multipath_name, same_map, check_maps, check_multipath,
}

module _ (h : Host) (shell : h.Shell) where
  -- `multipath` named the map of each path in turn, and it was `name`.
  pub data AllNamed (name : Text) : List ScsiDev → h.World → h.World → Type 0 where
    over : {w : h.World} → AllNamed name [] w w
    named :
        {d : ScsiDev} {ds : List ScsiDev} {w w' w'' : h.World}
        → get_multipath_name h shell d.kernel_path w ≡ (returned (some name), w')
        → AllNamed name ds w' w''
        → AllNamed name (d ∷ ds) w w''

  abbrev Ends : Text → List ScsiDev → h.World → Outcome (Option Text) → h.World → Type 0
  Ends name devs w r w' = Post (λ o v. (o ≡ some name) × AllNamed name devs w v) (λ e v. Unit) r w'

  Ends-named :
      (name : Text) (d : ScsiDev) (ds : List ScsiDev) (w w' : h.World) (r : Outcome (Option Text))
      (v : h.World)
      → get_multipath_name h shell d.kernel_path w ≡ (returned (some name), w')
      → Ends name ds w' r v
      → Ends name (d ∷ ds) w r v
  Ends-named name d ds w w' (returned o) v e k = (k.0, named e k.1)
  Ends-named name d ds w w' (raised x) v e k = tt

  -- with a map known
  known_map-Ends :
      (name : Text) (devs : List ScsiDev) (w : h.World)
      → Ends name devs w
          (check_maps h shell (some name) devs w).0
          (check_maps h shell (some name) devs w).1
  unfolding check_maps same_map ◌>>=◌
  known_map-Ends name [] w = (refl, over)
  known_map-Ends name (d ∷ ds) w =
      go (get_multipath_name h shell d.kernel_path w).0
        (get_multipath_name h shell d.kernel_path w).1 refl (known_map-Ends name ds)
    where
      go :
          (r : Outcome (Option Text)) (w' : h.World)
          → get_multipath_name h shell d.kernel_path w ≡ (r, w')
          → ((v : h.World)
              → Ends name ds v
                  (check_maps h shell (some name) ds v).0
                  (check_maps h shell (some name) ds v).1)
          → Ends name
              (d ∷ ds)
              w
              (check_maps h shell (some name) (d ∷ ds) w).0
              (check_maps h shell (some name) (d ∷ ds) w).1
      go (raised x) w' e ih = rw e tt
      go (returned none) w' e ih = rw e tt
      go (returned (some found)) w' e ih = elim (Bool-cases (text_eq found name)) [
        | inl y ↦
            rw (e, y) (Ends-named name d ds w w' _ _ (e ∙ rw (text_eq→≡ found name y) refl) (ih w'))
        | inr n ↦ rw (e, n) tt
      ]

  -- What a check of all maps has found: their name, or none if there is no path.
  abbrev Found : List ScsiDev → h.World → Option Text → h.World → Type 0
  Found devs w o w' = (o ≡ none) ⊎ ((name : Text) × (o ≡ some name) × AllNamed name devs w w')

  Ends-Found :
      (name : Text) (devs : List ScsiDev) (w : h.World) (r : Outcome (Option Text)) (v : h.World)
      → Ends name devs w r v
      → Post (Found devs w) (λ e v. Unit) r v
  Ends-Found name devs w (returned o) v k = inr (name, k.0, k.1)
  Ends-Found name devs w (raised x) v k = tt

  check_maps-Found :
      (devs : List ScsiDev) (w : h.World)
      → Post
          (Found devs w)
          (λ e v. Unit)
          (check_maps h shell none devs w).0
          (check_maps h shell none devs w).1
  unfolding check_maps same_map ◌>>=◌
  check_maps-Found [] w = inl refl
  check_maps-Found (d ∷ ds) w =
      go (get_multipath_name h shell d.kernel_path w).0
        (get_multipath_name h shell d.kernel_path w).1 refl
    where
      go :
          (r : Outcome (Option Text)) (w' : h.World)
          → get_multipath_name h shell d.kernel_path w ≡ (r, w')
          → Post
              (Found (d ∷ ds) w)
              (λ e v. Unit)
              (check_maps h shell none (d ∷ ds) w).0
              (check_maps h shell none (d ∷ ds) w).1
      go (raised x) w' e = rw e tt
      go (returned none) w' e = rw e tt
      go (returned (some name)) w' e = rw e (
          Ends-Found name (d ∷ ds) w _ _
            (Ends-named name d ds w w' _ _ e (known_map-Ends name ds w')))

  -- What the path that is returned stands for.
  pub record OneMap (lun : Text) (adapters : List Adapter) (w : h.World) (path : Text)
      (w' : h.World) : Type 0 where
    pub devs : List ScsiDev
    pub between : h.World
    pub listed : AllDevs h shell lun adapters devs w between
    pub name : Text
    pub path_of_name : path ≡ lit "/dev/mapper/" ++ name
    pub all_named : AllNamed name devs between w'

  -- The path that _check_multipath returns is /dev/mapper/ and the name of a map, and get_multipath_name
  -- has just given this name for the kernel device of every path of the disk: for each adapter and each of
  -- its wwpns, in order, the path has an entry with the kernel device that was found for it.
  pub check_multipath-OneMap :
      (lun : Text) (adapters : List Adapter) (w : h.World)
      → Triple
          (λ s. s ≡ w)
          (check_multipath h shell lun adapters)
          (OneMap lun adapters w)
          (λ e v. Unit)
  unfolding check_multipath
  check_multipath-OneMap lun adapters w = Triple-bind _ _ all_listed λ devs.
      Triple-bind
        {R = λ o s'. (s : h.World) × AllDevs h shell lun adapters devs w s × Found devs s o s'} _ _
        (record {
          at = λ s k.
              known devs s k (check_maps h shell none devs s).0 (check_maps h shell none devs s).1
                (check_maps-Found devs s);
        })
        λ o.
          Triple-lift _ _ (λ name e. Triple-pure _ λ s k. answer devs name s o e k.0 k.1 k.2)
            (λ x s e p. tt)
    where
      all_listed :
          Triple
            (λ s. s ≡ w)
            (get_all_scsi_dev_filenames h shell lun adapters)
            (λ devs v. AllDevs h shell lun adapters devs w v)
            (λ e v. Unit)
      all_listed = record {
        at = λ s k.
            subst
              (λ x.
                Post (λ devs v. AllDevs h shell lun adapters devs w v) (λ e v. Unit)
                  (get_all_scsi_dev_filenames h shell lun adapters x).0
                  (get_all_scsi_dev_filenames h shell lun adapters x).1)
              (sym k) (get_all-AllDevs h shell lun adapters w);
      }

      known :
          (devs : List ScsiDev) (s : h.World)
          → AllDevs h shell lun adapters devs w s
          → (r : Outcome (Option Text)) (v : h.World) → Post (Found devs s) (λ e v. Unit) r v
          → Post
              (λ o s'. (s : h.World) × AllDevs h shell lun adapters devs w s × Found devs s o s')
              (λ e v. Unit)
              r
              v
      known devs s f (returned o) v k = (s, f, k)
      known devs s f (raised x) v k = tt

      answer :
          (devs : List ScsiDev) (name : Text) (s' : h.World) (o : Option Text)
          → or_raise o (type_error "can only concatenate str (not \"NoneType\") to str")
            ≡ returned name
          → (s : h.World) → AllDevs h shell lun adapters devs w s
          → Found devs s o s'
          → OneMap lun adapters w (lit "/dev/mapper/" ++ name) s'
      answer devs name s' none e s f k = absurd (ground arith)
      answer devs name s' (some n) e s f (inl x) = absurd (ground arith)
      answer devs name s' (some n) e s f (inr (m, y, a)) = record {
        devs = devs;
        between = s;
        listed = f;
        name = m;
        path_of_name = cc (e, y);
        all_named = a;
      }
