-- ===== src/Kvm/Guest.antt =====
-- One KVM guest (tessia/baselib/hypervisors/kvm/guest.py), and `hotplug` of
-- tessia/baselib/guests/linux/linux.py, which it calls on the hypervisor's Linux.
pub mod Holds
pub mod Disks
pub mod Devices
pub mod Xml
mod Tests
use tessia_baselib.Prelude.{ℕ, zero, suc, Option, none, some, List, [], ◌∷◌, ◌++◌, decimal, Text}
use tessia_baselib.Python.{
  runtime_error, key_error, not_implemented, Outcome, returned, raised, Method, pure, raise, lift,
  or_raise, ◌>>=◌,
}
use tessia_baselib.Kvm.DeviceManager.{TargetDeviceManager, XmlAttributes, init}
use tessia_baselib.Kvm.Storage.{Volume, DevPaths, Disk, new_pool, pool_to_xml}
use tessia_baselib.Kvm.Iface.{IfaceParameters, Iface, new_iface}
use tessia_baselib.Kvm.Templates.{vm_xml}

-- What `hotplug` returns: a dictionary that has `vols` only if volumes were asked for.
pub record Hardware : Type 0 where
  pub vols : Option DevPaths

-- `hotplug(cpu, memory, vols)`, where `activate` is StoragePool(vols, ssh_conn).activate() on the
-- hypervisor's Linux, in state W. A count of 0 is None or 0, which the tests do not tell apart.
unfoldable pub hotplug :
    {W : Type 0} → (List Volume → Method W DevPaths) → ℕ → ℕ → List Volume → Method W Hardware
hotplug activate (suc cpu) memory vols = raise (not_implemented "cpu hotplug not supported yet")
hotplug activate zero (suc memory) vols = raise (not_implemented "memory hotplug not supported yet")
hotplug activate zero zero [] = pure (record { vols = none })
hotplug activate zero zero (v ∷ vs) = do
  resp ← activate (v ∷ vs)
  pure (record { vols = some resp })

pub record GuestKvm : Type 0 where
  pub guest_name : Text
  pub cpu : ℕ
  pub memory : ℕ
  -- `parameters.get(…, [])`
  pub storage_volumes : List Volume
  pub ifaces : List IfaceParameters
  pub active_hw : Option Hardware

-- GuestKvm.activate, on the guest's object and the hypervisor's Linux
unfoldable pub activate :
    {W : Type 0} → (List Volume → Method W DevPaths) → Method (GuestKvm × W) (Unit {0})
unfolding hotplug
activate pool (g, w) =
    let (r, w') = hotplug pool 0 0 g.storage_volumes w in
    elim r [
      | returned hw ↦ (returned tt, (record g { active_hw = some hw }, w'))
      | raised e ↦ (raised e, (g, w'))
    ]

module _ (xml : XmlAttributes) where
  -- the loop over `ifaces`
  unfoldable pub new_ifaces : List IfaceParameters → Method TargetDeviceManager (List Iface)
  unfolding new_iface
  new_ifaces [] = pure []
  new_ifaces (p ∷ ps) = do iface ← new_iface xml p; rest ← new_ifaces ps; pure (iface ∷ rest)

  abbrev ifaces_xml : List Iface → Text
  ifaces_xml [] = []
  ifaces_xml (i ∷ is) = i.libvirt_xml ++ ifaces_xml is

  -- The devices of a guest, as its new manager hands them out: disks first, then interfaces.
  unfoldable pub devices :
      List Volume
      → DevPaths
      → List IfaceParameters
      → Method TargetDeviceManager (List Disk × List Iface)
  unfolding new_ifaces
  devices volumes paths interfaces = do
    disks ← new_pool xml volumes paths
    ifaces ← new_ifaces interfaces
    pure (disks, ifaces)

  active_vols : Option Hardware → Outcome DevPaths
  active_vols none = raised (runtime_error "Guest hardware must be activated first")
  active_vols (some hw) = or_raise hw.vols (key_error "vols")

  -- GuestKvm.to_xml, where `uuid` is the text of the new uuid4
  unfoldable pub to_xml : Text → GuestKvm → Outcome Text
  unfolding devices active_vols
  to_xml uuid g =
      ((do
        paths ← lift (active_vols g.active_hw)
        built ← devices g.storage_volumes paths g.ifaces
        pure (
            vm_xml g.guest_name uuid (decimal g.memory) (decimal g.cpu) (pool_to_xml built.0).0
              (ifaces_xml built.1)))
        init).0
