-- ===== src/Kvm/Guest/Disks.antt =====
-- What the disks of a guest take from its TargetDeviceManager.
use mathlib.Core.List.{append_assoc, append-nil}
use tessia_baselib.Prelude.{
  ◌≡◌, refl, ap, ◌∙◌, subst, Option, none, some, List, [], ◌∷◌, ◌++◌, Text, arith,
}
use tessia_baselib.Python.{Error, returned, or_raise}
use tessia_baselib.Python.Rules.{Triple, Triple-pure, Triple-bind, Triple-lift}
use tessia_baselib.Kvm.DeviceManager.{TargetDeviceManager, XmlAttributes}
use tessia_baselib.Kvm.Storage.{Volume, DevPaths, dev_path, Disk, new_disk, new_pool}
use tessia_baselib.Kvm.Guest.Holds.{Holds, Fails, assign_devices_lem}

-- The disk of a volume: its id, its path on the hypervisor, and whether it is the boot device.
abbrev pub IsBuilt : DevPaths → Volume → Disk → Type 0
IsBuilt paths v d =
    (v.volume_id ≡ some d.volume_id)
    × (dev_path paths d.volume_id ≡ some d.hyp_dev_path)
    × (d.boot_device ≡ v.boot_device)

abbrev pub AllBuilt : DevPaths → List Volume → List Disk → Type 0
AllBuilt paths [] [] = Unit
AllBuilt paths (v ∷ vs) (d ∷ ds) = IsBuilt paths v d × AllBuilt paths vs ds
AllBuilt paths _ _ = ⊥

-- The names, and the numbers, of some disks.
abbrev pub target_devs : List Disk → List Text
target_devs [] = []
target_devs (d ∷ ds) = d.target_dev ∷ target_devs ds

abbrev pub target_devnos : List Disk → List Text
target_devnos [] = []
target_devnos (d ∷ ds) = d.target_devno ∷ target_devnos ds

or_raise_returned :
    {A : Type 0} (o : Option A) (e : Error) {a : A} → or_raise o e ≡ returned a → o ≡ some a
or_raise_returned none e h = cc
or_raise_returned (some b) e h = ground arith

IsBuilt-disk :
    (paths : DevPaths) (e e' : Error) (v : Volume) (id p : Text) (d : Disk)
    → or_raise v.volume_id e ≡ returned id
    → or_raise (dev_path paths id) e' ≡ returned p
    → v.volume_id ≡ some d.volume_id
    → p ≡ d.hyp_dev_path
    → d.boot_device ≡ v.boot_device
    → IsBuilt paths v d
IsBuilt-disk paths e e' v id p d h k i q b =
    let known = or_raise_returned v.volume_id e h in
    let found = or_raise_returned (dev_path paths id) e' k in
    let same : id ≡ d.volume_id = cc in
    (i, subst (λ t. dev_path paths t ≡ some d.hyp_dev_path) same (found ∙ ap some q), b)

pub snoc_append :
    (xs : List Text) (d : Text) (ys : List Text) → (xs ++ d ∷ []) ++ ys ≡ xs ++ (d ∷ ys)
snoc_append xs d ys = append_assoc xs (d ∷ []) ys

module _ (xml : XmlAttributes) where
  record DiskHolds (devs devnos : List Text) (paths : DevPaths) (v : Volume) (p : Text) (d : Disk)
      (m : TargetDeviceManager) : Type 0 where
    pub holds : Holds (devs ++ d.target_dev ∷ []) (devnos ++ d.target_devno ∷ []) m
    id_is : v.volume_id ≡ some d.volume_id
    path_is : p ≡ d.hyp_dev_path
    boot_is : d.boot_device ≡ v.boot_device

  new_disk_lem :
      (devs devnos : List Text) (paths : DevPaths) (v : Volume) (p : Text)
      → Triple (Holds devs devnos) (new_disk xml v (some p)) (DiskHolds devs devnos paths v p) Fails
  unfolding new_disk
  new_disk_lem devs devnos paths v p =
      Triple-lift _ _
        (λ id e.
          Triple-lift _ _
            (λ path k. Triple-bind _ _ (assign_devices_lem xml devs devnos v.system_attributes) λ d.
              Triple-pure _ λ s h. record {
                holds = h;
                id_is = or_raise_returned v.volume_id _ e;
                path_is = cc;
                boot_is = refl;
              })
            (λ err s r h. h.valid))
        (λ e s r h. h.valid)

  pub record PoolHolds (devs devnos : List Text) (paths : DevPaths) (volumes : List Volume)
      (disks : List Disk) (m : TargetDeviceManager) : Type 0 where
    pub holds : Holds (devs ++ target_devs disks) (devnos ++ target_devnos disks) m
    pub built : AllBuilt paths volumes disks

  pub new_pool_lem :
      (devs devnos : List Text) (volumes : List Volume) (paths : DevPaths)
      → Triple
          (Holds devs devnos)
          (new_pool xml volumes paths)
          (PoolHolds devs devnos paths volumes)
          Fails
  unfolding new_pool
  new_pool_lem devs devnos [] paths =
      Triple-pure _ λ s h. record { holds = rw (append-nil devs, append-nil devnos) h; built = tt }
  new_pool_lem devs devnos (v ∷ vs) paths =
      Triple-lift _ _
        (λ id e.
          Triple-lift _ _
            (λ p f. Triple-bind _ _ (new_disk_lem devs devnos paths v p) λ d. record {
              at = λ s h.
                  (Triple-bind _ _
                      (new_pool_lem (devs ++ d.target_dev ∷ []) (devnos ++ d.target_devno ∷ []) vs
                        paths)
                      λ ds. Triple-pure _ λ s' k. record {
                        holds =
                            rw
                              (← snoc_append devs d.target_dev, ← snoc_append devnos d.target_devno)
                              k.holds;
                        built = (
                          IsBuilt-disk paths _ _ v id p d e f h.id_is h.path_is h.boot_is,
                          k.built,
                        );
                      }).at
                    s h.holds;
            })
            (λ e s r h. h.valid))
        (λ e s r h. h.valid)
