-- ===== src/Hmc/Resources.antt =====
-- Changing the memory and the processors of a guest: _update_resources_lpar and
-- _update_resources_partition (hypervisors/hmc/hmc.py).
pub mod Updates
pub mod Stopped
use tessia_baselib.Prelude.{
  ℕ, ◌==◌, Bool, true, false, not, ◌&&◌, Option, none, some, List, [], ◌∷◌, ◌++◌, Text, lit,
  text_eq, if◌then◌else◌,
}
use tessia_baselib.Python.{
  Error, http_error, Outcome, returned, raised, Method, pure, raise, ◌>>=◌, ◌>>◌,
}
use tessia_baselib.Hmc.Client.{
  Value, text, number, Properties, PartitionProperties, ProfileProperties, Client,
}

-- `args`: a key is there if it is asked for.
pub record ResourceArgs : Type 0 where
  pub mem : Option ℕ
  pub cp : Option ℕ
  pub ifl : Option ℕ

-- one entry, where the key is in `args` and the value differs
unfoldable pub differing : Option ℕ → ℕ → (ℕ → Properties) → Properties
differing none old entries = []
differing (some new) old entries = if old == new then [] else entries new

abbrev pub shared : Text
shared = lit "shared"

unfoldable pub sharing : Text → Text → Properties
sharing key mode = if text_eq mode shared then [] else (key, text shared) ∷ []

-- the updates of a partition
unfoldable pub partition_updates : ResourceArgs → PartitionProperties → Properties
unfolding differing sharing
partition_updates args p =
    differing args.mem p.maximum_memory
      (λ n. (lit "initial-memory", number n) ∷ ((lit "maximum-memory", number n) ∷ []))
    ++ (differing args.cp p.cp (λ n. (lit "cp-processors", number n) ∷ [])
        ++ (differing args.ifl p.ifl (λ n. (lit "ifl-processors", number n) ∷ [])
            ++ sharing (lit "processor-mode") p.mode))

-- the updates of an image activation profile
unfoldable pub profile_updates : ResourceArgs → ProfileProperties → Properties
unfolding differing sharing
profile_updates args p =
    differing args.mem p.storage (λ n. (lit "central-storage", number n) ∷ [])
    ++ (differing args.cp p.cp
          (λ n. (lit "number-shared-general-purpose-processors", number n) ∷ [])
        ++ (differing args.ifl p.ifl (λ n. (lit "number-shared-ifl-processors", number n) ∷ [])
            ++ sharing (lit "processor-usage") p.usage))

unfoldable pub is_status : Error → ℕ → ℕ → Bool
is_status (http_error status reason) s r = status == s && reason == r
is_status _ s r = false

handle_263 : {S : Type 0} → Outcome (Unit {0}) → S → Outcome (Unit {0}) × S
handle_263 (returned u) s = (returned u, s)
handle_263 (raised e) s = if is_status e 500 263 then (returned tt, s) else (raised e, s)

-- `try: …` with an HTTPError 500, 263 taken for success
unfoldable pub tolerate_263 : {S : Type 0} → Method S (Unit {0}) → Method S (Unit {0})
unfolding handle_263 is_status
tolerate_263 m s = let (r, s') = m s in handle_263 r s'

module _ (z : Client) where
  -- deactivate, unless the status says that it is not needed
  unfoldable pub deactivate_lpar : z.Lpar → Method z.World (Unit {0})
  deactivate_lpar lpar = do
    status ← z.lpar_status lpar
    if text_eq status (lit "not-activated") then pure tt else tolerate_263 (z.deactivate lpar)

  unfoldable pub activate_lpar : z.Lpar → Text → Method z.World (Unit {0})
  activate_lpar lpar profile = tolerate_263 (do z.activate lpar profile; z.wait_active lpar)

  unfoldable pub reactivate : z.Lpar → Text → Method z.World (Unit {0})
  unfolding deactivate_lpar activate_lpar
  reactivate lpar profile = do z.pull_lpar lpar; deactivate_lpar lpar; activate_lpar lpar profile

  unfoldable pub update_resources_lpar : ResourceArgs → z.Lpar → Method z.World (Unit {0})
  unfolding reactivate
  update_resources_lpar args lpar = do
    profile ← z.find_profile lpar
    properties ← z.profile_properties profile
    elim (profile_updates args properties) [
      | [] ↦ pure tt
      | u ∷ us ↦ (do z.update_profile profile (u ∷ us); reactivate lpar properties.name)
    ]

  -- stop, unless the partition is stopped
  unfoldable pub stop_and_wait : z.Partition → Method z.World (Unit {0})
  stop_and_wait p = do
    status ← z.partition_status p
    if text_eq status (lit "stopped")
        then pure tt
        else (do z.stop_partition p; z.wait_partition p (lit "stopped"))

  unfoldable pub stop_for_update : z.Partition → Method z.World (Unit {0})
  stop_for_update p = do
    status ← z.partition_status p
    if text_eq status (lit "stopped")
        then pure tt
        else (do z.stop_partition p; z.wait_partition p (lit "stopped"); z.pull_partition p)

  unfoldable pub update_resources_partition : ResourceArgs → z.Partition → Method z.World (Unit {0})
  unfolding stop_for_update
  update_resources_partition args p = do
    z.pull_partition p
    properties ← z.partition_properties p
    elim (partition_updates args properties) [
      | [] ↦ pure tt
      | u ∷ us ↦ (do stop_for_update p; z.update_partition p (u ∷ us))
    ]
