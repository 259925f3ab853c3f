-- ===== src/Hmc/Volumes/Own.antt =====
-- Which paths the descriptor of an FCP volume lists (hypervisors/hmc/volume_descriptor.py).
use tessia_baselib.Prelude.{
  ◌≡◌, refl, ap, inl, inr, false, Bool-cases, List, [], ◌∷◌, Text, lit, text_eq, text_eq→≡,
  text_eq_refl,
}
use tessia_baselib.Hmc.Volumes.{
  VolumePath, DescribedPath, StorageVolume, fcp, own_paths, all_paths, kind_of,
  describe_storage_volume,
}

abbrev pub described : VolumePath → DescribedPath
described p = record {
  device_nr = p.device_number;
  wwpn = p.target_wwpn;
  lun = p.logical_unit_number;
}

-- The paths of one partition, in their order, and none of another's.
pub data Own (uri : Text) : List VolumePath → List DescribedPath → Type 0 where
  no_path : Own uri [] []
  its_path :
      {p : VolumePath} {ps : List VolumePath} {ds : List DescribedPath}
      → p.partition_uri ≡ uri
      → Own uri ps ds
      → Own uri (p ∷ ps) (described p ∷ ds)
  other_path :
      {p : VolumePath} {ps : List VolumePath} {ds : List DescribedPath}
      → ¬ (p.partition_uri ≡ uri)
      → Own uri ps ds
      → Own uri (p ∷ ps) ds

own_paths-Own : (uri : Text) (ps : List VolumePath) → Own uri ps (own_paths uri ps)
unfolding own_paths
own_paths-Own uri [] = no_path
own_paths-Own uri (p ∷ ps) = elim (Bool-cases (text_eq p.partition_uri uri)) [
  | inl y ↦ rw y (its_path (text_eq→≡ p.partition_uri uri y) (own_paths-Own uri ps))
  | inr n ↦ rw n (
      other_path (λ e. cc (n, ap (text_eq p.partition_uri) e, text_eq_refl p.partition_uri))
        (own_paths-Own uri ps))
]

fcp_not_fc : text_eq (lit "fcp") (lit "fc") ≡ false
unfolding text_eq lit
fcp_not_fc = refl

-- The descriptor of a volume in a storage group of type "fcp" is that of an FCP volume and lists the
-- paths of the partition: all of them, in their order, and none of another partition.
describe_storage_volume-Own :
    (v : StorageVolume) (uri : Text)
    → v.group_type ≡ lit "fcp"
    → (ds : List DescribedPath) × ((describe_storage_volume v uri).kind ≡ fcp v.uuid ds)
      × Own uri (all_paths v.paths) ds
unfolding describe_storage_volume kind_of
describe_storage_volume-Own v uri e = (
  own_paths uri (all_paths v.paths),
  rw (e, fcp_not_fc, text_eq_refl (lit "fcp")) refl,
  own_paths-Own uri (all_paths v.paths),
)
