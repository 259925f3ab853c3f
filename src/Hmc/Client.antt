-- ===== src/Hmc/Client.antt =====
-- zhmcclient, the library that speaks to the console: its objects and the calls that the driver makes.
-- It is a parameter of the model. A property is read under the name that the library gives it.
use tessia_baselib.Prelude.{ℕ, Bool, Option, List, Text}
use tessia_baselib.Python.{Method}
use tessia_baselib.Hmc.Cpus.{Processors}
use tessia_baselib.Hmc.Volumes.{StorageVolume}

-- A value of a dictionary of properties.
pub data Value : Type 0 where
  text : Text → Value
  number : ℕ → Value
  flag : Bool → Value
  null : Value

abbrev pub Properties : Type 0
Properties = List (Text × Value)

-- maximum-memory, cp-processors, ifl-processors, processor-mode of a partition
pub record PartitionProperties : Type 0 where
  pub initial_memory : ℕ
  pub maximum_memory : ℕ
  pub cp : ℕ
  pub ifl : ℕ
  pub mode : Text

-- name, central-storage, number-shared-general-purpose-processors, number-shared-ifl-processors and
-- processor-usage of an image activation profile
pub record ProfileProperties : Type 0 where
  pub name : Text
  pub storage : ℕ
  pub cp : ℕ
  pub ifl : ℕ
  pub usage : Text

-- next-activation-profile-name and the last-used-… properties of an LPAR
pub record LastUsed : Type 0 where
  pub profile_name : Text
  pub address : Text
  pub port_name : Text
  pub logical_unit : Text

pub record Client : Type 1 where
  pub World : Type 0
  -- a client and its session, `_conn`
  pub Session : Type 0
  pub Cpc : Type 0
  pub Partition : Type 0
  pub Lpar : Type 0
  pub Profile : Type 0
  pub Group : Type 0
  pub Volume : Type 0
  pub find_cpc : Session → Text → Method World Cpc
  -- the mode of a CPC, which the client keeps
  pub dpm_enabled : Cpc → Bool
  pub processor_counts : Cpc → Method World Processors
  pub find_partition : Cpc → Text → Method World Partition
  pub find_lpar : Cpc → Text → Method World Lpar
  pub partition_status : Partition → Method World Text
  pub pull_partition : Partition → Method World (Unit {0})
  pub partition_properties : Partition → Method World PartitionProperties
  pub update_partition : Partition → Properties → Method World (Unit {0})
  pub stop_partition : Partition → Method World (Unit {0})
  pub start_partition : Partition → Method World (Unit {0})
  pub wait_partition : Partition → Text → Method World (Unit {0})
  -- raises ValueError where the console does not have the feature
  pub feature_enabled : Partition → Text → Method World Bool
  pub storage_groups : Partition → Method World (List Group)
  pub group_type : Group → Method World Text
  pub volumes : Group → Method World (List Volume)
  -- volumes with their full properties
  pub full_volumes : Group → Method World (List StorageVolume)
  pub partition_uri : Partition → Text
  pub volume_property : Volume → Text → Method World (Option Text)
  pub update_volume : Volume → Properties → Method World (Unit {0})
  pub element_uri : Volume → Method World Text
  pub lpar_name : Lpar → Method World Text
  pub lpar_status : Lpar → Method World Text
  pub pull_lpar : Lpar → Method World (Unit {0})
  pub last_used : Lpar → Method World LastUsed
  pub find_profile : Lpar → Method World Profile
  pub profile_properties : Profile → Method World ProfileProperties
  pub update_profile : Profile → Properties → Method World (Unit {0})
  pub activate : Lpar → Text → Method World (Unit {0})
  pub deactivate : Lpar → Method World (Unit {0})
  -- wait_for_status(['not-operating', 'operating'])
  pub wait_active : Lpar → Method World (Unit {0})
  pub load : Lpar → Text → Method World (Unit {0})
  pub scsi_load : Lpar → Text → Text → Text → Method World (Unit {0})
  -- a POST to /operations/nvme-load of an LPAR
  pub post_nvme_load : Lpar → Properties → Method World (Unit {0})
  -- is a foreign error one of zhmcclient's?
  pub is_error : ℕ → Bool
  -- a new session, logged on
  pub logon : ℕ → Method World Session
  pub logoff : Session → Method World (Unit {0})

-- what _get_guest returns
pub data Guest (z : Client) : Type 0 where
  partition : z.Partition → Guest z
  lpar : z.Lpar → Guest z
