-- ===== src/Linux/Fcp/Activation.antt =====
-- Building an FCP disk from its volume and activating it (disk_fcp.py).
use tessia_baselib.Prelude.{
  sym, ◌∙◌, subst, ◌≡◌, refl, Bool, true, false, Option, none, some, List, [], ◌∷◌, map, Text, All,
  if◌then◌else◌,
}
use tessia_baselib.Python.{pure, raise, ◌>>=◌}
use tessia_baselib.Volume.{Adapter, Specs, Volume}
use tessia_baselib.Linux.Host.{Host}
use tessia_baselib.Linux.Disk.{new_base}
use tessia_baselib.Linux.Gives.{
  Gives, Any, Gives-pure, Gives-if, Gives-lift, Gives-bind, IsConnection,
}
use tessia_baselib.Linux.Fcp.{
  is_multipath, add_0x, prefix_wwpns, has_path, DiskFcp, new_fcp, activate,
}
use tessia_baselib.Linux.Fcp.Maps.{check_multipath, disable_multipath}
use tessia_baselib.Linux.Fcp.Reports.{IsFormed, enable_adapters-Gives}
use tessia_baselib.Linux.Fcp.Devices.{
  false≢true, IsAnswer, enable_zfcp_module-Gives, check_multipath-Gives, disable_multipath-Gives,
}

module _ (h : Host) (c : IsConnection h) where
  pub activate-Gives :
      (d : DiskFcp h)
      → All IsFormed d.adapters
      → has_path d.adapters ≡ true
      → Gives (IsAnswer d.multipath) (activate h d)
  unfolding activate
  activate-Gives d f e = Gives-bind _ _ (enable_zfcp_module-Gives h c d.shell) λ u t.
      Gives-bind _ _ (enable_adapters-Gives h c d.shell d.lun d.adapters f)
        λ u' t'. answer d.multipath
    where
      answer :
          (b : Bool)
          → Gives (IsAnswer b) (
              if b
              then check_multipath h d.shell d.lun d.adapters
              else disable_multipath h d.shell d.lun d.adapters)
      answer true = check_multipath-Gives h c d.shell d.lun d.adapters f e
      answer false = disable_multipath-Gives h c d.shell d.lun d.adapters f e

-- the constructor changes the wwpns, not whether there are any
prefix_wwpns-IsFormed : (as' : List Adapter) → All IsFormed as' → All IsFormed (prefix_wwpns as')
unfolding prefix_wwpns
prefix_wwpns-IsFormed [] f = tt
prefix_wwpns-IsFormed (a ∷ as') f = (
  record {
    devno = f.0.devno;
    wwpns = map add_0x f.0.wwpns;
    has_devno = f.0.has_devno;
    has_wwpns = rw f.0.has_wwpns refl;
  },
  prefix_wwpns-IsFormed as' f.1,
)

has_path-prefix_wwpns : (as' : List Adapter) → has_path (prefix_wwpns as') ≡ has_path as'
unfolding has_path prefix_wwpns
has_path-prefix_wwpns [] = refl
has_path-prefix_wwpns (a ∷ as') = go (has_path-prefix_wwpns as') a.wwpns
  where
    go :
        has_path (prefix_wwpns as') ≡ has_path as'
        → (o : Option (List Text))
        → has_path (prefix_wwpns (record a { wwpns = o } ∷ as'))
          ≡ has_path (record a { wwpns = o } ∷ as')
    go ih none = ih
    go ih (some []) = ih
    go ih (some (w ∷ ws)) = refl

-- An FCP volume as its schema demands it, with at least one path.
pub record IsFcpVolume (v : Volume) : Type 0 where
  pub volume_id : Text
  pub specs : Specs
  pub adapters : List Adapter
  pub has_id : v.volume_id ≡ some volume_id
  pub has_specs : v.specs ≡ some specs
  pub has_adapters : specs.adapters ≡ some adapters
  pub formed : All IsFormed adapters
  pub some_path : has_path adapters ≡ true

-- The object that the constructor builds from such a volume.
record IsBuilt (h : Host) {v : Volume} (i : IsFcpVolume v) (d : DiskFcp h) : Type 0 where
  prefixed : d.adapters ≡ prefix_wwpns i.adapters
  flag : d.multipath ≡ is_multipath i.specs.multipath

module _ (h : Host) (opens : Gives Any h.open_shell) where
  new_base-Gives : (v : Volume) (i : IsFcpVolume v) → Gives Any (new_base h v)
  unfolding new_base
  new_base-Gives v i =
      Gives-bind _ _ (Gives-lift {Q = Any} _ i.volume_id (rw i.has_id) tt)
        λ id t. Gives-bind _ _ opens λ shell t'. Gives-pure _ tt

  new_fcp-Gives : (v : Volume) (i : IsFcpVolume v) → Gives (IsBuilt h i) (new_fcp h v)
  unfolding new_fcp
  new_fcp-Gives v i = Gives-bind _ _ (new_base-Gives v i) λ base t.
      Gives-bind _ _ (Gives-lift {Q = λ s. s ≡ i.specs} _ i.specs (rw i.has_specs) refl) λ specs e.
        Gives-bind _ _
          (Gives-lift {Q = λ a. a ≡ i.adapters} _ i.adapters (rw (e, i.has_adapters)) refl)
          λ adapters e'.
            Gives-if (has_path adapters) (pure _) (raise _)
              (λ y. Gives-pure _ (record { prefixed = rw e'; flag = rw e }))
              (λ n.
                absurd (false≢true (sym n ∙ subst (λ a. has_path a ≡ true) (sym e') i.some_path)))

module _ (h : Host) (c : IsConnection h) where
  -- A volume with an id and formed adapters, at least one of them with a wwpn, on a host whose shells
  -- open and run commands with no error but a RuntimeError or the connection's: building its disk and
  -- activating it gives a path under /dev/mapper if multipath is asked for, else a kernel device
  -- that is a word other than "-", or raises RuntimeError or what the connection raised; it raises
  -- no IndexError, TypeError, KeyError or ValueError.
  pub new_fcp_activates :
      Gives Any h.open_shell
      → (v : Volume) (i : IsFcpVolume v)
      → Gives (IsAnswer (is_multipath i.specs.multipath)) (do d ← new_fcp h v; activate h d)
  new_fcp_activates opens v i = Gives-bind _ _ (new_fcp-Gives h opens v i) λ d b.
      subst (λ f. Gives (IsAnswer f) (activate h d)) b.flag
        (activate-Gives h c d
          (subst (All IsFormed) (sym b.prefixed) (prefix_wwpns-IsFormed i.adapters i.formed))
          (rw (b.prefixed, has_path-prefix_wwpns i.adapters, i.some_path)))
