-- ===== src/Volume.antt =====
-- The parameters of a storage volume, as the drivers read them from the dictionary that
-- common/params_validators/schemas/common/entities/disk_type.json describes. A field is an Option
-- where the code can miss it: a subscript raises, a `get` gives its default.
use tessia_baselib.Prelude.{Bool, Option, none, some, List, [], ◌∷◌, Text, text_eq, if◌then◌else◌}

-- `adapters` of an FCP volume
pub record Adapter : Type 0 where
  pub devno : Option Text
  pub wwpns : Option (List Text)

-- A value under the key `multipath`: True, another true value, or a false one.
pub data Multipath : Type 0 where
  is_true truthy falsy : Multipath

pub record Specs : Type 0 where
  pub multipath : Option Multipath
  pub adapters : Option (List Adapter)

-- `system_attributes`
pub record SystemAttributes : Type 0 where
  pub libvirt : Option Text

-- One entry of `storage_volumes`.
pub record Volume : Type 0 where
  pub volume_id : Option Text
  pub type : Option Text
  pub specs : Option Specs
  pub system_attributes : Option SystemAttributes
  -- `parameters.get("boot_device")` is true
  pub boot_device : Bool

-- The device paths of activated volumes, a dictionary keyed by volume id.
abbrev pub DevPaths : Type 0
DevPaths = List (Text × Text)

unfoldable pub dev_path : DevPaths → Text → Option Text
dev_path [] k = none
dev_path ((j, p) ∷ ps) k = if text_eq j k then some p else dev_path ps k
