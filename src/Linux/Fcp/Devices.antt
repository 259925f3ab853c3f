-- ===== src/Linux/Fcp/Devices.antt =====
-- How the methods on all the paths of an FCP disk end (disk_fcp.py).
use tessia_baselib.Prelude.{
  ◌∙◌, subst, ◌||◌, ◌≡◌, ◌≢◌, refl, Bool, true, false, ◌==◌, not, ◌&&◌, Option, none, some, List,
  [], ◌∷◌, ◌++◌, Text, lit, text_eq, strip, All, All-append, if◌then◌else◌,
}
use tessia_baselib.Python.{index_error, pure, raise, lift, or_raise}
use tessia_baselib.Volume.{Adapter}
use tessia_baselib.Linux.Host.{Host}
use tessia_baselib.Linux.Disk.{device_times}
use tessia_baselib.Linux.Gives.{
  Gives, Any, Found, Gives-pure, Gives-raise, Gives-if, Gives-lift, Gives-Any, Gives-bind,
  Gives-poll, IsConnection, Gives-timer,
}
use tessia_baselib.Linux.Fcp.{has_path}
use tessia_baselib.Linux.Fcp.Paths.{is_empty}
use tessia_baselib.Linux.Fcp.Maps.{
  ScsiDev, enable_zfcp_module, wwpn_devs, get_all_scsi_dev_filenames, get_kernel_devname,
  multipath_of, get_multipath_name, same_map, check_maps, check_multipath, remove_paths, first_path,
  disable_multipath,
}
use tessia_baselib.Linux.Fcp.Reports.{IsDevice, IsFormed, get_scsi_dev_filename-Gives}

has_some : {A : Type 0} → List A → Bool
has_some [] = false
has_some (a ∷ as') = true

pub false≢true : false ≢ true
false≢true e = cc

-- A list of paths that each have a device, not empty if `b`.
record AllDevices (b : Bool) (devs : List ScsiDev) : Type 0 where
  found : All (λ d. IsDevice d.kernel_path) devs
  some_dev : b ≡ true → has_some devs ≡ true

has_some-append : {A : Type 0} (xs ys : List A) → has_some (xs ++ ys) ≡ has_some xs || has_some ys
unfolding has_some
has_some-append [] ys = refl
has_some-append (x ∷ xs) ys = refl

no_path : has_path [] ≡ true → has_some {A = ScsiDev} [] ≡ true
unfolding has_path has_some
no_path e = e

has_path-cons :
    (a : Adapter) (as' : List Adapter) (f : IsFormed a)
    → has_path (a ∷ as') ≡ has_some f.wwpns || has_path as'
unfolding has_path has_some
has_path-cons a as' f = rw f.has_wwpns (go f.wwpns)
  where
    go :
        (ws : List Text)
        → has_path (record a { wwpns = some ws } ∷ as') ≡ has_some ws || has_path as'
    go [] = refl
    go (w ∷ ws) = refl

or_true :
    (a b a' b' : Bool)
    → (a ≡ true → a' ≡ true)
    → (b ≡ true → b' ≡ true)
    → a || b ≡ true
    → a' || b' ≡ true
or_true true b a' b' h k e = rw (h refl) refl
or_true false b true b' h k e = refl
or_true false b false b' h k e = k e

AllDevices-append :
    (b b' : Bool) (xs ys : List ScsiDev)
    → AllDevices b xs
    → AllDevices b' ys
    → AllDevices (b || b') (xs ++ ys)
AllDevices-append b b' xs ys h k = record {
  found = All-append _ xs ys h.found k.found;
  some_dev = λ e. has_some-append xs ys ∙ or_true b b' _ _ h.some_dev k.some_dev e;
}

-- What `activate` returns: a multipath map under /dev/mapper, or the kernel device of a path.
abbrev pub IsAnswer : Bool → Text → Type 0
IsAnswer true path = (name : Text) × (path ≡ lit "/dev/mapper/" ++ name)
IsAnswer false path = IsDevice path

abbrev IsNamed : Option Text → Type 0
IsNamed o = (name : Text) × (o ≡ some name)

module _ (h : Host) (c : IsConnection h) (shell : h.Shell) where
  wwpn_devs-Gives :
      (lun devno : Text) (wwpns : List Text)
      → Gives (AllDevices (has_some wwpns)) (wwpn_devs h shell lun devno wwpns)
  unfolding wwpn_devs has_some
  wwpn_devs-Gives lun devno [] = Gives-pure [] (record { found = tt; some_dev = λ e. e })
  wwpn_devs-Gives lun devno (w ∷ ws) =
      Gives-bind _ _ (get_scsi_dev_filename-Gives h c shell devno w lun) λ k d.
        Gives-bind _ _ (wwpn_devs-Gives lun devno ws)
          λ rest a. Gives-pure _ (record { found = (d, a.found); some_dev = λ e. refl })

  get_all_scsi_dev_filenames-Gives :
      (lun : Text) (as' : List Adapter)
      → All IsFormed as'
      → Gives (AllDevices (has_path as')) (get_all_scsi_dev_filenames h shell lun as')
  unfolding get_all_scsi_dev_filenames
  get_all_scsi_dev_filenames-Gives lun [] f =
      Gives-pure [] (record { found = tt; some_dev = no_path })
  get_all_scsi_dev_filenames-Gives lun (a ∷ as') f =
      Gives-bind _ _ (Gives-lift {Q = Any} _ f.0.devno (rw f.0.has_devno) tt) λ devno t.
        Gives-bind _ _ (Gives-lift {Q = λ w. w ≡ f.0.wwpns} _ f.0.wwpns (rw f.0.has_wwpns) refl)
          λ wwpns e. Gives-bind _ _ (wwpn_devs-Gives lun devno wwpns) λ devs d.
            Gives-bind _ _ (get_all_scsi_dev_filenames-Gives lun as' f.1) λ rest r. Gives-pure _ (
              rw (has_path-cons a as' f.0)
                (AllDevices-append _ _ devs rest (subst (λ w. AllDevices (has_some w) devs) e d) r))

  pub enable_zfcp_module-Gives : Gives Any (enable_zfcp_module h shell)
  unfolding enable_zfcp_module
  enable_zfcp_module-Gives =
      Gives-bind _ _ (c.run_reports shell _) λ r t.
        Gives-if {Q = Any} (r.0 == 0) _ (raise _) (λ a. Gives-pure tt tt) (λ b. Gives-raise _)

  get_kernel_devname-Gives : (dev : Text) → Gives Any (get_kernel_devname h shell dev)
  unfolding get_kernel_devname
  get_kernel_devname-Gives dev = Gives-bind _ _ (c.run_reports shell _) λ r t.
      Gives-if {Q = Any} (r.0 == 0) (pure (strip r.1)) (raise _) (λ a. Gives-pure _ tt)
        (λ b. Gives-raise _)

  multipath_of-Gives : (dev : Text) → Gives (Found Any) (multipath_of h shell dev)
  unfolding multipath_of
  multipath_of-Gives dev =
      Gives-bind _ _ (c.run_reports shell _)
        λ r t. Gives-pure _ (found (r.0 == 0 && not (is_empty (strip r.1))) _)
    where
      found : (b : Bool) (x : Text) → Found Any (if b then some x else none)
      found true x = tt
      found false x = tt

  get_multipath_name-Gives : (dev : Text) → Gives Any (get_multipath_name h shell dev)
  unfolding get_multipath_name
  get_multipath_name-Gives dev =
      Gives-bind _ _ (get_kernel_devname-Gives dev)
        λ k t. Gives-Any _ (Gives-poll h device_times _ (multipath_of-Gives k))

  same_map-Gives : (known name : Option Text) → Gives Any (same_map h shell known name)
  unfolding same_map
  same_map-Gives known none = Gives-raise _
  same_map-Gives none (some name) = Gives-pure name tt
  same_map-Gives (some known) (some name) =
      Gives-if (text_eq name known) (pure known) (raise _) (λ a. Gives-pure known tt)
        (λ b. Gives-raise _)

  known_map-Gives :
      (name : Text) (devs : List ScsiDev) → Gives IsNamed (check_maps h shell (some name) devs)
  unfolding check_maps
  known_map-Gives name [] = Gives-pure _ (name, refl)
  known_map-Gives name (d ∷ ds) = Gives-bind _ _ (get_multipath_name-Gives d.kernel_path) λ found t.
      Gives-bind _ _ (same_map-Gives (some name) found) λ map_name t'. known_map-Gives map_name ds

  -- with a path, there is a name in the end
  check_maps-Gives :
      (devs : List ScsiDev) → has_some devs ≡ true → Gives IsNamed (check_maps h shell none devs)
  unfolding check_maps has_some
  check_maps-Gives [] e = absurd (false≢true e)
  check_maps-Gives (d ∷ ds) e = Gives-bind _ _ (get_multipath_name-Gives d.kernel_path) λ found t.
      Gives-bind _ _ (same_map-Gives none found) λ map_name t'. known_map-Gives map_name ds

  pub check_multipath-Gives :
      (lun : Text) (as' : List Adapter)
      → All IsFormed as'
      → has_path as' ≡ true
      → Gives (IsAnswer true) (check_multipath h shell lun as')
  unfolding check_multipath
  check_multipath-Gives lun as' f e =
      Gives-bind _ _ (get_all_scsi_dev_filenames-Gives lun as' f) λ devs d.
        Gives-bind _ _ (check_maps-Gives devs (d.some_dev e)) λ o n.
          Gives-bind _ _ (Gives-lift {Q = Any} _ n.0 (rw n.1) tt)
            λ name t. Gives-pure _ (name, refl)

  remove_paths-Gives : (devs : List ScsiDev) → Gives Any (remove_paths h shell devs)
  unfolding remove_paths
  remove_paths-Gives [] = Gives-pure tt tt
  remove_paths-Gives (d ∷ ds) =
      Gives-bind _ _ (Gives-timer h c shell _ _ _ _) λ u t. remove_paths-Gives ds

  pub disable_multipath-Gives :
      (lun : Text) (as' : List Adapter)
      → All IsFormed as'
      → has_path as' ≡ true
      → Gives (IsAnswer false) (disable_multipath h shell lun as')
  unfolding disable_multipath has_some
  disable_multipath-Gives lun as' f e =
      Gives-bind _ _ (get_all_scsi_dev_filenames-Gives lun as' f)
        λ devs d. Gives-bind _ _ (remove_paths-Gives devs) λ u t. first devs d.found (d.some_dev e)
    where
      first :
          (devs : List ScsiDev)
          → All (λ d. IsDevice d.kernel_path) devs
          → has_some devs ≡ true
          → Gives {W = h.World} IsDevice
              (lift (or_raise (first_path h shell devs) (index_error "list index out of range")))
      first [] a n = absurd (false≢true n)
      first (d ∷ ds) a n = Gives-lift _ d.kernel_path refl a.0
