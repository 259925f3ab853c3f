-- ===== src/Linux/Fcp/Listed.antt =====
-- The list of all paths of a disk (disk_fcp.py): one entry for each adapter and each of its wwpns.
use tessia_baselib.Prelude.{◌≡◌, refl, Option, none, some, List, [], ◌∷◌, ◌++◌, Text, lit}
use tessia_baselib.Python.{Outcome, returned, raised, pure, lift, continue, ◌>>=◌}
use tessia_baselib.Python.Rules.{Post}
use tessia_baselib.Volume.{Adapter}
use tessia_baselib.Linux.Host.{Host}
use tessia_baselib.Linux.Fcp.Paths.{get_scsi_dev_filename, fcp_path}
use tessia_baselib.Linux.Fcp.Maps.{ScsiDev, wwpn_devs, get_all_scsi_dev_filenames}

module _ (h : Host) (shell : h.Shell) where
  -- One entry for each wwpn of the adapter `devno`, in order: its path in full, and the kernel device that
  -- was found for it.
  pub data WwpnDevs (lun devno : Text) : List Text → List ScsiDev → h.World → h.World → Type 0 where
    no_wwpn : {w : h.World} → WwpnDevs lun devno [] [] w w
    wwpn_dev :
        {wwpn : Text} {wwpns : List Text} {name : Text} {devs : List ScsiDev} {w w' w'' : h.World}
        → get_scsi_dev_filename h shell devno wwpn lun w ≡ (returned name, w')
        → WwpnDevs lun devno wwpns devs w' w''
        → WwpnDevs lun devno
            (wwpn ∷ wwpns)
            (record { path = devno ++ (lit "/" ++ (wwpn ++ (lit "/" ++ lun))); kernel_path = name }
              ∷ devs)
            w
            w''

  -- The entries of all wwpns of all adapters, in order.
  pub data AllDevs (lun : Text) : List Adapter → List ScsiDev → h.World → h.World → Type 0 where
    no_adapter : {w : h.World} → AllDevs lun [] [] w w
    adapter_devs :
        {a : Adapter} {as' : List Adapter} {devno : Text} {wwpns : List Text}
        {devs rest : List ScsiDev} {w w' w'' : h.World}
        → a.devno ≡ some devno
        → a.wwpns ≡ some wwpns
        → WwpnDevs lun devno wwpns devs w w'
        → AllDevs lun as' rest w' w''
        → AllDevs lun (a ∷ as') (devs ++ rest) w w''

  wwpn_devs-WwpnDevs :
      (lun devno : Text) (wwpns : List Text) (w : h.World)
      → Post
          (λ devs w'. WwpnDevs lun devno wwpns devs w w')
          (λ e v. Unit)
          (wwpn_devs h shell lun devno wwpns w).0
          (wwpn_devs h shell lun devno wwpns w).1
  unfolding wwpn_devs fcp_path ◌>>=◌
  wwpn_devs-WwpnDevs lun devno [] w = no_wwpn
  wwpn_devs-WwpnDevs lun devno (wwpn ∷ wwpns) w =
      go (get_scsi_dev_filename h shell devno wwpn lun w).0
        (get_scsi_dev_filename h shell devno wwpn lun w).1 refl (wwpn_devs-WwpnDevs lun devno wwpns)
    where
      rest :
          (name : Text) (w' : h.World)
          → get_scsi_dev_filename h shell devno wwpn lun w ≡ (returned name, w')
          → (r : Outcome (List ScsiDev)) (w'' : h.World)
          → Post (λ devs v. WwpnDevs lun devno wwpns devs w' v) (λ e v. Unit) r w''
          → Post
              (λ devs v. WwpnDevs lun devno (wwpn ∷ wwpns) devs w v)
              (λ e v. Unit)
              (continue r
                (λ devs.
                  pure (record { path = fcp_path devno wwpn lun; kernel_path = name } ∷ devs))
                w'').0
              (continue r
                (λ devs.
                  pure (record { path = fcp_path devno wwpn lun; kernel_path = name } ∷ devs))
                w'').1
      rest name w' e (returned devs) w'' k = wwpn_dev e k
      rest name w' e (raised x) w'' k = tt

      go :
          (r : Outcome Text) (w' : h.World)
          → get_scsi_dev_filename h shell devno wwpn lun w ≡ (r, w')
          → ((v : h.World)
              → Post
                  (λ devs v'. WwpnDevs lun devno wwpns devs v v')
                  (λ e v. Unit)
                  (wwpn_devs h shell lun devno wwpns v).0
                  (wwpn_devs h shell lun devno wwpns v).1)
          → Post
              (λ devs w'. WwpnDevs lun devno (wwpn ∷ wwpns) devs w w')
              (λ e v. Unit)
              (wwpn_devs h shell lun devno (wwpn ∷ wwpns) w).0
              (wwpn_devs h shell lun devno (wwpn ∷ wwpns) w).1
      go (raised x) w' e ih = rw e tt
      go (returned name) w' e ih = rw e (
          rest name w' e (wwpn_devs h shell lun devno wwpns w').0
            (wwpn_devs h shell lun devno wwpns w').1 (ih w'))

  -- what get_all_scsi_dev_filenames ended with
  abbrev pub Listed : Text → List Adapter → h.World → Outcome (List ScsiDev) → h.World → Type 0
  Listed lun adapters w r w' = Post (λ devs v. AllDevs lun adapters devs w v) (λ e v. Unit) r w'

  -- what it ends with where `a` comes first
  module _ (lun : Text) (as' : List Adapter) (w : h.World)
      (ih : (v : h.World)
        → Listed lun as' v
            (get_all_scsi_dev_filenames h shell lun as' v).0
            (get_all_scsi_dev_filenames h shell lun as' v).1) where
    abbrev ListedFirst : Option Text → Option (List Text) → Type 0
    ListedFirst o q =
        Listed lun (record { devno = o; wwpns = q } ∷ as') w
          (get_all_scsi_dev_filenames h shell lun (record { devno = o; wwpns = q } ∷ as') w).0
          (get_all_scsi_dev_filenames h shell lun (record { devno = o; wwpns = q } ∷ as') w).1

    rest-Listed :
        (devno : Text) (wwpns : List Text) (devs : List ScsiDev) (w' : h.World)
        → WwpnDevs lun devno wwpns devs w w'
        → (r : Outcome (List ScsiDev)) (w'' : h.World) → Listed lun as' w' r w''
        → Listed lun
            (record { devno = some devno; wwpns = some wwpns } ∷ as')
            w
            (continue r (λ more. pure (devs ++ more)) w'').0
            (continue r (λ more. pure (devs ++ more)) w'').1
    unfolding pure
    rest-Listed devno wwpns devs w' k (returned more) w'' m = adapter_devs refl refl k m
    rest-Listed devno wwpns devs w' k (raised x) w'' m = tt

    by_devs :
        (devno : Text) (wwpns : List Text) (r : Outcome (List ScsiDev)) (w' : h.World)
        → wwpn_devs h shell lun devno wwpns w ≡ (r, w')
        → Post (λ devs v. WwpnDevs lun devno wwpns devs w v) (λ e v. Unit) r w'
        → ListedFirst (some devno) (some wwpns)
    unfolding get_all_scsi_dev_filenames lift ◌>>=◌
    by_devs devno wwpns (raised x) w' k m = rw k tt
    by_devs devno wwpns (returned devs) w' k m = rw k (
        rest-Listed devno wwpns devs w' m (get_all_scsi_dev_filenames h shell lun as' w').0
          (get_all_scsi_dev_filenames h shell lun as' w').1 (ih w'))

    get_all-ListedFirst : (o : Option Text) (q : Option (List Text)) → ListedFirst o q
    unfolding get_all_scsi_dev_filenames lift ◌>>=◌
    get_all-ListedFirst none q = tt
    get_all-ListedFirst (some devno) none = tt
    get_all-ListedFirst (some devno) (some wwpns) =
        by_devs devno wwpns (wwpn_devs h shell lun devno wwpns w).0
          (wwpn_devs h shell lun devno wwpns w).1 refl (wwpn_devs-WwpnDevs lun devno wwpns w)

  pub get_all-AllDevs :
      (lun : Text) (adapters : List Adapter) (w : h.World)
      → Listed lun adapters w
          (get_all_scsi_dev_filenames h shell lun adapters w).0
          (get_all_scsi_dev_filenames h shell lun adapters w).1
  unfolding get_all_scsi_dev_filenames pure
  get_all-AllDevs lun [] w = no_adapter
  get_all-AllDevs lun (a ∷ as') w =
      get_all-ListedFirst lun as' w (get_all-AllDevs lun as') a.devno a.wwpns
