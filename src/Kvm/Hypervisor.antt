-- ===== src/Kvm/Hypervisor.antt =====
-- HypervisorKvm (tessia/baselib/hypervisors/kvm/kvm.py). The checks of `validate_params` come before
-- each method and are not part of it; the connection to the hypervisor's Linux is a parameter.
pub mod Session
pub mod Stopping
mod Tests
use tessia_baselib.Prelude.{
  ℕ, zero, suc, Bool, true, false, not, Option, none, some, List, [], ◌∷◌, ◌++◌, Text, lit, text_eq,
  if◌then◌else◌,
}
use tessia_baselib.Python.{
  runtime_error, key_error, attribute_error, Outcome, returned, raised, Method, pure, raise, lift,
  gets, modify, or_raise, ◌>>=◌, ◌>>◌,
}
use tessia_baselib.Volume.{Volume, DevPaths}
use tessia_baselib.Linux.Host.{Host}
use tessia_baselib.Kvm.DeviceManager.{XmlAttributes}
use tessia_baselib.Kvm.Iface.{IfaceParameters}
use tessia_baselib.Kvm.Guest.{GuestKvm, to_xml}
use tessia_baselib.Kvm.Guest
use tessia_baselib.Kvm.Virsh.{Services, BootParams, Virsh}
use tessia_baselib.Kvm.Virsh

-- `parameters["parameters"]` of a guest to start
pub record BootMethod : Type 0 where
  pub boot_method : Option Text
  pub boot_options : Option BootParams

-- `parameters` of `start`
pub record GuestParameters : Type 0 where
  pub storage_volumes : List Volume
  pub ifaces : List IfaceParameters
  pub parameters : Option BootMethod

unfoldable pub is_netboot : Option BootMethod → Bool
is_netboot none = false
is_netboot (some boot) = elim boot.boot_method [
  | none ↦ false
  | some boot_method ↦ text_eq boot_method (lit "network")
]

-- parameters["parameters"]["boot_options"]
unfoldable pub boot_options : Option BootMethod → Outcome BootParams
boot_options none = raised (key_error "parameters")
boot_options (some boot) = or_raise boot.boot_options (key_error "boot_options")

-- how many seconds to wait for a shutdown
abbrev pub shutdown_timeout : ℕ
shutdown_timeout = 30

-- the rounds of a wait for a shutdown, one every five seconds
abbrev pub shutdown_fuel : ℕ
shutdown_fuel = 8

-- The connection to the hypervisor's Linux: GuestLinux.login, logoff and open_session; and what
-- `GuestKvm` needs: activated volumes, the parser of xml and new identifiers.
pub record Connection (h : Host) : Type 1 where
  pub services : Services h
  pub login : ℕ → Method h.World (Unit {0})
  pub logoff : Method h.World (Unit {0})
  pub open_session : Method h.World h.Shell
  pub activate_volumes : List Volume → Method h.World DevPaths
  pub xml : XmlAttributes
  pub uuid4 : h.World → Text

module _ (h : Host) (c : Connection h) where
  -- `_host_conn` is None or an object without a state of its own.
  pub record HypervisorKvm : Type 0 where
    pub host_conn : Bool
    pub virsh : Option (Virsh h)

  abbrev pub State : Type 0
  State = HypervisorKvm × h.World

  abbrev pub init : HypervisorKvm
  init = record { host_conn = false; virsh = none }

  unfoldable pub on_host : {A : Type 0} → Method h.World A → Method State A
  on_host m (k, w) = let (r, w') = m w in (r, (k, w'))

  -- a call of a method of `_virsh`, which may be None
  with_object : {A : Type 0} → Option (Virsh h) → Method (Virsh h × h.World) A → Method State A
  with_object none m (k, w) =
      (raised (attribute_error "'NoneType' object has no attribute"), (k, w))
  with_object (some v) m (k, w) = let (r, s) = m (v, w) in (r, (record k { virsh = some s.0 }, s.1))

  unfoldable pub with_virsh : {A : Type 0} → Method (Virsh h × h.World) A → Method State A
  unfolding with_object
  with_virsh m s = with_object s.0.virsh m s

  unfoldable pub test_logged_in : Method State (Unit {0})
  test_logged_in = do
    host_conn ← gets (λ s. s.0.host_conn)
    if host_conn then pure tt else raise (runtime_error "You must login first")

  unfoldable pub login : ℕ → Method State (Unit {0})
  unfolding on_host
  login timeout = do
    modify (λ s. (record s.0 { host_conn = true }, s.1))
    on_host (c.login timeout)
    shell ← on_host c.open_session
    modify (λ s. (
      record s.0 {
        virsh = some (record { host_cnn = true; cmd_channel = some shell; tmp_dir = none });
      },
      s.1,
    ))

  unfoldable pub logoff : Method State (Unit {0})
  unfolding test_logged_in with_virsh
  logoff = do
    test_logged_in
    with_virsh (Virsh.close h)
    modify (λ s. (record s.0 { virsh = none }, s.1))
    on_host c.logoff
    modify (λ s. (record s.0 { host_conn = false }, s.1))

  abbrev stop_running : Text → Method State (Unit {0})
  stop_running guest_name =
      with_virsh (Virsh.shutdown h c.services shutdown_fuel guest_name shutdown_timeout)

  -- GuestKvm(…).activate() and to_xml()
  unfoldable pub guest_xml : Text → ℕ → ℕ → GuestParameters → Method State Text
  guest_xml guest_name cpu memory parameters = on_host λ w.
      let guest : GuestKvm = record {
        guest_name = guest_name;
        cpu = cpu;
        memory = memory;
        storage_volumes = parameters.storage_volumes;
        ifaces = parameters.ifaces;
        active_hw = none;
      } in
      let (r, (active, w')) = Guest.activate c.activate_volumes (guest, w) in
      elim r as (λ x. Outcome Text × h.World) [
        | returned done ↦ (to_xml c.xml (c.uuid4 w') active, w')
        | raised e ↦ (raised e, w')
      ]

  unfoldable pub define_and_start : Text → Text → Option BootMethod → Method State (Unit {0})
  define_and_start guest_name domain_xml boot = do
    if is_netboot boot
        then (do
          options ← lift (boot_options boot)
          with_virsh (Virsh.define_netboot h c.services domain_xml options))
        else with_virsh (Virsh.define h c.services domain_xml)
    with_virsh (Virsh.start h guest_name)
    if is_netboot boot
        then (do
          with_virsh (Virsh.define h c.services domain_xml)
          with_virsh (Virsh.clean_tmp_dir h))
        else pure tt

  unfoldable pub start : Text → ℕ → ℕ → GuestParameters → Method State (Unit {0})
  unfolding test_logged_in with_virsh guest_xml define_and_start
  start guest_name cpu memory parameters = do
    test_logged_in
    running ← with_virsh (Virsh.is_running h guest_name)
    if running then stop_running guest_name else pure tt
    domain_xml ← guest_xml guest_name cpu memory parameters
    defined ← with_virsh (Virsh.is_defined h guest_name)
    if defined then with_virsh (Virsh.undefine h guest_name) else pure tt
    define_and_start guest_name domain_xml parameters.parameters

  -- what `reboot` and `stop` begin with: the guest is defined, and shut down if it is running
  unfoldable pub stop_defined : Text → Method State (Unit {0})
  unfolding test_logged_in with_virsh
  stop_defined guest_name = do
    test_logged_in
    defined ← with_virsh (Virsh.is_defined h guest_name)
    if defined then pure tt else raise (runtime_error "Domain {} is not defined")
    running ← with_virsh (Virsh.is_running h guest_name)
    if running then stop_running guest_name else pure tt

  unfoldable pub reboot : Text → Method State (Unit {0})
  unfolding stop_defined
  reboot guest_name = do stop_defined guest_name; with_virsh (Virsh.start h guest_name)

  unfoldable pub stop : Text → Method State (Unit {0})
  stop guest_name = stop_defined guest_name
