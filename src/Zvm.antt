-- ===== src/Zvm.antt =====
-- HypervisorZvm (tessia/baselib/hypervisors/zvm/zvm.py), which drives the guest through its CMS guest.
-- The files that a network boot uploads are sent by GuestCms.push_file, a parameter,
-- as the name of a temporary file. The checks of
-- `validate_params` come before each method and are no part of it.
pub mod Netboot
pub mod Checks
pub mod Words
mod Tests
use tessia_baselib.Prelude.{
  ℕ, zero, suc, ◌+◌, ◌-◌, ◌==◌, Bool, true, false, not, ◌&&◌, ◌||◌, Option, none, some, List, [],
  ◌∷◌, ◌++◌, map, String, Text, lit, text_eq, upper, starts_with, decimal, if◌then◌else◌,
}
use tessia_baselib.Python.{
  Error, runtime_error, value_error, key_error, index_error, not_implemented, Outcome, returned,
  raised, Method, pure, raise, lift, option_case, ◌>>=◌, ◌>>◌,
}
use tessia_baselib.Cms.{
  Terminal, Match, CmsVolume, CmsIface, error_regex, expect, last_part, hotplug, ipl_cms,
}
use tessia_baselib.Cms
use tessia_baselib.Zvm.Netboot.{NetbootParams, run, run_cp, netboot}
use tessia_baselib.Zvm.Words.{split_chars}

pub record ZvmAdapter : Type 0 where
  pub devno : Text
  pub wwpns : List Text

-- an entry of `storage_volumes`
pub record ZvmVolume : Type 0 where
  pub type : Text
  pub boot_device : Bool
  pub devno : Option Text
  pub adapters : Option (List ZvmAdapter)
  pub lun : Option Text

-- `parameters` of `start`
pub record ZvmParameters : Type 0 where
  pub boot_method : Text
  pub storage_volumes : List ZvmVolume
  pub ifaces : List CmsIface
  pub netboot : Option NetbootParams

-- [vol for vol in … if vol.get('boot_device')][0]
unfoldable pub boot_volume : List ZvmVolume → Option ZvmVolume
boot_volume [] = none
boot_volume (v ∷ vs) = let rest = boot_volume vs in if v.boot_device then some v else rest

-- the checks of the parameters, and the boot device
unfoldable pub check_boot : ZvmParameters → Outcome (Option ZvmVolume)
unfolding boot_volume
check_boot p =
    if text_eq p.boot_method (lit "disk")
    then (option_case (boot_volume p.storage_volumes)
        (raised (value_error "Boot method 'disk' requires a boot device")) λ v. returned (some v))
    else if text_eq p.boot_method (lit "network")
    then (option_case p.netboot
        (raised (value_error "Boot method 'network' requires netboot parameters"))
        λ n. returned none)
    else returned none

-- what `hotplug` reads of a volume
unfoldable pub cms_volume : ZvmVolume → CmsVolume
cms_volume v = record {
  type = v.type;
  devno = v.devno;
  adapters = option_case v.adapters none λ as'. some (map (λ a. a.devno) as');
}

first_of : {A : Type 0} → List A → Outcome A
first_of [] = raised (index_error "list index out of range")
first_of (x ∷ xs) = returned x

module _ (t : Terminal) (push_file : Text → Text → Method t.World (Unit {0}))
    (temporary : Text → Text) (user : Text) (no_profile : Bool) where
  unfoldable pub reset_cpus : Method t.World (Unit {0})
  reset_cpus = do
    answer ←
        run_cp t (lit "detach cpu all")
          (lit "(?i)storage cleared - system reset" ∷ (error_regex ∷ []))
    m ← lift (
        option_case answer.1 (raised (runtime_error "Detach CPU(s) returned unexpected output"))
          returned)
    if not (text_eq m.pattern (lit "(?i)storage cleared - system reset"))
          && not (starts_with m.group (lit "HCPCPU1456E"))
        then raise (runtime_error "Detach CPU(s) failed with: {}")
        else pure tt

  unfoldable pub define_storage : ℕ → Method t.World (Unit {0})
  define_storage memory = do
    answer ←
        run_cp t (lit "define storage " ++ (decimal memory ++ lit "M"))
          (lit "STORAGE = \\d+" ∷ (error_regex ∷ []))
    m ← lift (
        option_case answer.1
          (raised (runtime_error "Define storage (memory) returned unexpected output")) returned)
    if text_eq m.pattern (lit "STORAGE = \\d+")
        then pure tt
        else raise (runtime_error "Define storage (memory) failed with: {}")

  -- set loaddev for a disk behind FCP: the number of its adapter
  unfoldable pub set_loaddev : ZvmVolume → Method t.World Text
  unfolding expect first_of last_part split_chars
  set_loaddev v = do
    adapters ← lift (option_case v.adapters (raised (key_error "adapters")) returned)
    adapter ← lift (first_of adapters)
    wwpn ← lift (first_of adapter.wwpns)
    lun ← lift (option_case v.lun (raised (key_error "lun")) returned)
    run t
        (lit "set loaddev portname " ++ (split_chars wwpn 8 ++ (lit " lun " ++ split_chars lun 8)))
        []
    answer ← run t (lit "q loaddev") (
        (lit "(?i)portname  *" ++ (split_chars wwpn 8 ++ (lit "  * lun  *" ++ split_chars lun 8)))
        ∷ (error_regex ∷ []))
    lift
        (expect "Query loaddev returned unexpected output" "Query loaddev failed with: {}" answer.1)
    pure (last_part adapter.devno)

  unfoldable pub ipl_disk : ZvmVolume → Method t.World (Unit {0})
  unfolding set_loaddev
  ipl_disk v = do
    devno ←
        if text_eq v.type (lit "fcp")
        then set_loaddev v
        else lift (option_case v.devno (raised (key_error "devno")) returned)
    answer ← run t (lit "i " ++ devno) (lit "Kernel command line: " ∷ (lit "login: " ∷ []))
    lift (option_case answer.1 (raised (runtime_error "Failed to IPL disk")) λ m. returned tt)

  unfoldable pub boot : ZvmParameters → Option ZvmVolume → Method t.World (Unit {0})
  unfolding netboot ipl_disk
  boot p boot_dev =
      if text_eq p.boot_method (lit "cms")
      then (do ipl_cms t user no_profile; run_cp t (lit "term more 50 10") []; pure tt)
      else if text_eq p.boot_method (lit "network")
      then (do
        n ← lift (option_case p.netboot (raised (key_error "netboot")) returned)
        netboot t push_file temporary user no_profile n)
      else option_case boot_dev (pure tt) ipl_disk

  -- `cpu - 1` CPUs are attached; -1, as 0, is none
  unfoldable pub start_checked :
      ℕ → ℕ → ZvmParameters → Option ZvmVolume → Method t.World (Unit {0})
  unfolding reset_cpus define_storage cms_volume boot
  start_checked cpu memory p boot_dev = do
    Cms.stop t user
    Cms.login t user no_profile 60
    if cpu == 0 then pure tt else reset_cpus
    if memory == 0 then pure tt else define_storage memory
    hotplug t user (cpu - 1) 0 (map cms_volume p.storage_volumes) p.ifaces
    boot p boot_dev

  unfoldable pub check_name : Text → Outcome (Unit {0})
  check_name guest_name =
      if text_eq (upper guest_name) user
      then returned tt
      else raised (
          value_error
            "On z/VM the guest name provided must be the same as the username specified for login")

  unfoldable pub start : Text → ℕ → ℕ → ZvmParameters → Method t.World (Unit {0})
  unfolding check_name check_boot start_checked
  start guest_name cpu memory p = do
    lift (check_name guest_name)
    boot_dev ← lift (check_boot p)
    start_checked cpu memory p boot_dev

  unfoldable pub stop : Text → Method t.World (Unit {0})
  unfolding check_name
  stop guest_name = do lift (check_name guest_name); Cms.stop t user

  -- the session is that of the CMS guest, whose timeout is its default
  unfoldable pub login : ℕ → Method t.World (Unit {0})
  login timeout = Cms.login t user no_profile 60

  unfoldable pub logoff : Method t.World (Unit {0})
  logoff = Cms.logoff t user

  unfoldable pub reboot : Text → Method t.World (Unit {0})
  reboot guest_name = raise (not_implemented "")
