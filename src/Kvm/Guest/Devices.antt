-- ===== src/Kvm/Guest/Devices.antt =====
-- The devices of one guest: what its disks and interfaces take from the new TargetDeviceManager.
use mathlib.Core.List.{append-nil}
use tessia_baselib.Prelude.{
  ◌≡◌, refl, subst, Option, none, some, true, List, [], ◌∷◌, ◌++◌, Nodup, Text, All,
}
use tessia_baselib.Python.{returned}
use tessia_baselib.Python.Rules.{Triple, Triple-pure, Triple-bind, Triple-lift}
use tessia_baselib.Kvm.DeviceManager.{TargetDeviceManager, init, XmlAttributes}
use tessia_baselib.Kvm.DeviceManager.Format.{is_devname, is_devno}
use tessia_baselib.Kvm.DeviceManager.Invariant.{init-IsValid}
use tessia_baselib.Kvm.Storage.{Volume, DevPaths, Disk}
use tessia_baselib.Kvm.Iface.{IfaceParameters, IfaceAttributes, Iface, given_iface, new_iface}
use tessia_baselib.Kvm.Guest.{new_ifaces, devices}
use tessia_baselib.Kvm.Guest.Holds.{Holds, Fails, next_devno, given_devno}
use tessia_baselib.Kvm.Guest.Disks.{AllBuilt, target_devs, target_devnos, snoc_append, new_pool_lem}

abbrev pub iface_devnos : List Iface → List Text
iface_devnos [] = []
iface_devnos (i ∷ is) = i.devno ∷ iface_devnos is

module _ (xml : XmlAttributes) where
  -- A generated interface takes the next number, also where its template cannot be filled in.
  new_iface_lem :
      (devs devnos : List Text) (p : IfaceParameters)
      → Triple
          (Holds devs devnos)
          (new_iface xml p)
          (λ i. Holds devs (devnos ++ i.devno ∷ []))
          Fails
  unfolding new_iface
  new_iface_lem devs devnos p = Triple-lift _ _ (λ a e. go a a.libvirt) (λ e s r h. h.valid)
    where
      go :
          (a : IfaceAttributes) (o : Option Text)
          → Triple
              (Holds devs devnos)
              (given_iface xml o p a)
              (λ i. Holds devs (devnos ++ i.devno ∷ []))
              Fails
      go a (some text) =
          Triple-bind _ _ (given_devno xml devs devnos text) λ n. Triple-pure _ (λ s h. h)
      go a none =
          Triple-lift _ _
            (λ type e.
              Triple-lift _ _
                (λ found f. Triple-bind _ _ (next_devno xml devs devnos) λ n.
                  Triple-lift _ _
                    (λ mac g.
                      Triple-lift _ _
                        (λ host k.
                          Triple-lift _ _ (λ text l. Triple-pure _ (λ s h. h)) (λ e s r h. h.valid))
                        (λ e s r h. h.valid))
                    (λ e s r h. h.valid))
                (λ e s r h. h.valid))
            (λ e s r h. h.valid)

  new_ifaces_lem :
      (devs devnos : List Text) (ps : List IfaceParameters)
      → Triple
          (Holds devs devnos)
          (new_ifaces xml ps)
          (λ is. Holds devs (devnos ++ iface_devnos is))
          Fails
  unfolding new_ifaces
  new_ifaces_lem devs devnos [] = Triple-pure _ λ s h. rw (append-nil devnos) h
  new_ifaces_lem devs devnos (p ∷ ps) = Triple-bind _ _ (new_iface_lem devs devnos p) λ i.
      Triple-bind _ _ (new_ifaces_lem devs (devnos ++ i.devno ∷ []) ps)
        λ is. Triple-pure _ λ s h. rw (← snoc_append devnos i.devno) h

  pub record GuestHolds (volumes : List Volume) (paths : DevPaths) (built : List Disk × List Iface)
      (m : TargetDeviceManager) : Type 0 where
    pub holds : Holds (target_devs built.0) (target_devnos built.0 ++ iface_devnos built.1) m
    pub all_built : AllBuilt paths volumes built.0

  pub devices_lem :
      (volumes : List Volume) (paths : DevPaths) (ps : List IfaceParameters)
      → Triple (Holds [] []) (devices xml volumes paths ps) (GuestHolds volumes paths) Fails
  unfolding devices
  devices_lem volumes paths ps = Triple-bind _ _ (new_pool_lem xml [] [] volumes paths) λ ds.
      record {
        at = λ s h.
            (Triple-bind _ _ (new_ifaces_lem (target_devs ds) (target_devnos ds) ps)
                λ is. Triple-pure _ λ s' k. record { holds = k; all_built = h.built }).at
              s h.holds;
      }

  -- The devices of a guest: no two of its disks have the same name on the guest, no two disks or
  -- interfaces have the same device number, each name and number is one that libvirt's xml may hold,
  -- and every disk is that of its volume, in order, at the path where its volume was activated.
  pub devices_distinct :
      (volumes : List Volume) (paths : DevPaths) (ps : List IfaceParameters) (ds : List Disk)
      (is : List Iface)
      → (devices xml volumes paths ps init).0 ≡ returned (ds, is)
      → Nodup (target_devs ds)
        × Nodup (target_devnos ds ++ iface_devnos is)
        × All (λ t. is_devname t ≡ true) (target_devs ds)
        × All (λ t. is_devno t ≡ true) (target_devnos ds ++ iface_devnos is)
        × AllBuilt paths volumes ds
  unfolding init
  devices_distinct volumes paths ps ds is h =
      let m = (devices xml volumes paths ps init).1 in
      let g : GuestHolds volumes paths (ds, is) m = rw h at (
        (devices_lem volumes paths ps).at init
          (record { valid = init-IsValid; devs_are = refl; devnos_are = refl })) in
      let v = g.holds.valid in
      (
        subst Nodup g.holds.devs_are v.devs_unique,
        subst Nodup g.holds.devnos_are v.devnos_unique,
        subst (All (λ t. is_devname t ≡ true)) g.holds.devs_are v.devs_wellformed,
        subst (All (λ t. is_devno t ≡ true)) g.holds.devnos_are v.devnos_wellformed,
        g.all_built,
      )
