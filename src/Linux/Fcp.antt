-- ===== src/Linux/Fcp.antt =====
-- DiskFcp (tessia/baselib/guests/linux/storage/disk_fcp.py): the object and its constructor. The
-- methods stand in the modules below.
pub mod Paths
pub mod Maps
pub mod Reports
pub mod Devices
pub mod Activation
pub mod Listed
pub mod SameMap
use mathlib.Core.Option
use Maps.{enable_zfcp_module, enable_adapters, check_multipath, disable_multipath}
use tessia_baselib.Prelude.{
  Bool, true, false, ◌||◌, Option, none, some, List, [], ◌∷◌, ◌++◌, map, Text, lit, if◌then◌else◌,
}
use tessia_baselib.Python.{value_error, key_error, Method, pure, raise, lift, or_raise, ◌>>=◌, ◌>>◌}
use tessia_baselib.Volume.{Adapter, Multipath, is_true, truthy, falsy, Volume}
use tessia_baselib.Linux.Host.{Host}
use tessia_baselib.Linux.Disk.{new_base}

-- the truth value of `specs.get("multipath", False)`
unfoldable pub is_multipath : Option Multipath → Bool
is_multipath none = false
is_multipath (some falsy) = false
is_multipath (some is_true) = true
is_multipath (some truthy) = true

unfoldable pub add_0x : Text → Text
add_0x t = lit "0x" ++ t

-- the loop that adds 0x to the wwpns of each adapter
unfoldable pub prefix_wwpns : List Adapter → List Adapter
unfolding add_0x
prefix_wwpns [] = []
prefix_wwpns (a ∷ as') = record a { wwpns = Option.map (map add_0x) a.wwpns } ∷ prefix_wwpns as'

-- whether that loop finds a wwpn
unfoldable pub has_path : List Adapter → Bool
has_path [] = false
has_path (a ∷ as') = elim a.wwpns [
  | none ↦ has_path as'
  | some [] ↦ has_path as'
  | some (w ∷ ws) ↦ true
]

module _ (h : Host) where
  pub record DiskFcp : Type 0 where
    pub volume_id : Text
    pub shell : h.Shell
    pub lun : Text
    pub multipath : Bool
    pub adapters : List Adapter

  unfoldable pub new_fcp : Volume → Method h.World DiskFcp
  unfolding is_multipath add_0x
  new_fcp parameters = do
    base ← new_base h parameters
    specs ← lift (or_raise parameters.specs (key_error "specs"))
    adapters ← lift (or_raise specs.adapters (key_error "adapters"))
    if has_path adapters
        then pure (record {
          volume_id = base.0;
          shell = base.1;
          lun = add_0x base.0;
          multipath = is_multipath specs.multipath;
          adapters = prefix_wwpns adapters;
        })
        else raise (value_error "No FCP path defined for disk LUN {}")

  -- DiskFcp.activate
  unfoldable pub activate : DiskFcp → Method h.World Text
  activate d = do
    enable_zfcp_module h d.shell
    enable_adapters h d.shell d.lun d.adapters
    if d.multipath
        then check_multipath h d.shell d.lun d.adapters
        else disable_multipath h d.shell d.lun d.adapters
