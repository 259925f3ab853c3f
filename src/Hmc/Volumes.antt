-- ===== src/Hmc/Volumes.antt =====
-- The descriptors of the storage volumes of a partition: describe_storage_volume and its classes
-- (hypervisors/hmc/volume_descriptor.py).
pub mod Own
use tessia_baselib.Prelude.{
  ℕ, Bool, false, Option, none, some, List, [], ◌∷◌, ◌++◌, Text, lit, text_eq, contains,
  if◌then◌else◌,
}

-- an entry of the property `paths`
pub record VolumePath : Type 0 where
  pub device_number : Text
  pub target_wwpn : Text
  pub logical_unit_number : Text
  pub partition_uri : Text

-- What zhmcclient tells of a volume; sizes are in a unit that makes them whole.
pub record StorageVolume : Type 0 where
  pub uri : Text
  pub fulfillment_state : Option Text
  pub active_size : Option ℕ
  pub group_type : Text
  pub device_number : Option Text
  pub eckd_type : Option Text
  pub uuid : Option Text
  pub paths : Option (List VolumePath)

pub record DescribedPath : Type 0 where
  pub device_nr : Text
  pub wwpn : Text
  pub lun : Text

-- VolumeDescriptor, and what its two subclasses add
pub data Kind : Type 0 where
  generic : Kind
  ficon : Option Text → Bool → Kind
  fcp : Option Text → List DescribedPath → Kind

pub record VolumeDescriptor : Type 0 where
  pub uri : Text
  pub is_fulfilled : Bool
  pub size : ℕ
  pub attachment : Text
  pub kind : Kind

is_one_of : List Text → Option Text → Bool
is_one_of ts none = false
is_one_of ts (some t) = contains ts t

or_zero : Option ℕ → ℕ
or_zero none = 0
or_zero (some n) = n

-- the paths of the partition, of all paths to the volume
unfoldable pub own_paths : Text → List VolumePath → List DescribedPath
own_paths uri [] = []
own_paths uri (p ∷ ps) =
    let rest = own_paths uri ps in
    if text_eq p.partition_uri uri
    then record { device_nr = p.device_number; wwpn = p.target_wwpn; lun = p.logical_unit_number }
      ∷ rest
    else rest

-- volume.prop('paths') or []
abbrev pub all_paths : Option (List VolumePath) → List VolumePath
all_paths none = []
all_paths (some ps) = ps

unfoldable pub kind_of : StorageVolume → Text → Kind
unfolding own_paths is_one_of
kind_of v uri =
    if text_eq v.group_type (lit "fc")
    then ficon v.device_number (is_one_of (lit "alias" ∷ []) v.eckd_type)
    else if text_eq v.group_type (lit "fcp")
    then fcp v.uuid (own_paths uri (all_paths v.paths))
    else generic

-- the descriptor of a volume for the partition with this uri
unfoldable pub describe_storage_volume : StorageVolume → Text → VolumeDescriptor
unfolding kind_of is_one_of or_zero
describe_storage_volume v uri = record {
  uri = v.uri;
  is_fulfilled = is_one_of (lit "complete" ∷ (lit "overprovisioned" ∷ [])) v.fulfillment_state;
  size = or_zero v.active_size;
  attachment = v.group_type;
  kind = kind_of v uri;
}

-- __str__ of the three classes
unfoldable pub descriptor_text : VolumeDescriptor → Text
descriptor_text d = elim d.kind [
  | generic ↦ lit "VolumeDescriptor<" ++ (d.uri ++ lit ">")
  | ficon device_nr is_alias ↦
      lit "FiconVolumeDescriptor<" ++ (d.uri ++ (lit ", devno=" ++ (shown device_nr ++ lit ">")))
  | fcp uuid paths ↦
      lit "FcpVolumeDescrtiptor<" ++ (d.uri ++ (lit ", uuid=" ++ (shown uuid ++ lit ">")))
]
  where
    shown : Option Text → Text
    shown none = lit "None"
    shown (some t) = t
