-- ===== src/Hmc/Resources/Stopped.antt =====
-- A partition is updated only while it is stopped (hypervisors/hmc/hmc.py).
use tessia_baselib.Prelude.{
  ◌≡◌, refl, ap, sym, subst, ◌⊎◌, inl, inr, [], ◌∷◌, lit, text_eq, text_eq→≡,
}
use tessia_baselib.Python.{Error, Outcome, returned, raised, Method, pure, ◌>>◌}
use tessia_baselib.Python.Rules.{Post, Triple, Triple-pure, Triple-if, Triple-bind, Triple-call}
use tessia_baselib.Hmc.Client.{Properties, PartitionProperties, Client}
use tessia_baselib.Hmc.Resources.{
  ResourceArgs, partition_updates, stop_for_update, update_resources_partition,
}

-- What zhmcclient documents of a partition's status: a world in which the partition is stopped is
-- one in which it was asked for or waited for, and fetching its properties does not start it.
pub record StatusLaws (z : Client) (p : z.Partition) (IsStopped : z.World → Type 0) : Type 0 where
  pub status_tells :
      (w w' : z.World) → z.partition_status p w ≡ (returned (lit "stopped"), w') → IsStopped w'
  pub wait_tells :
      (w w' : z.World) → z.wait_partition p (lit "stopped") w ≡ (returned tt, w') → IsStopped w'
  pub pull_keeps : (w : z.World) → IsStopped w → IsStopped (z.pull_partition p w).1

module _ (z : Client) (p : z.Partition) {IsStopped : z.World → Type 0}
    (laws : StatusLaws z p IsStopped) where
  abbrev Anywhere : z.World → Type 0
  Anywhere w = Unit

  abbrev AnyError : Error → z.World → Type 0
  AnyError e w = Unit

  stop_for_update-IsStopped : Triple Anywhere (stop_for_update z p) (λ u w. IsStopped w) AnyError
  unfolding stop_for_update
  stop_for_update-IsStopped =
      Triple-bind _ _ (Triple-call (z.partition_status p) λ e w w' k h. tt) λ status.
        Triple-if (text_eq status (lit "stopped")) (pure tt) _
          (λ y. Triple-pure tt λ w k. laws.status_tells k.0 w (
            subst (λ s. z.partition_status p k.0 ≡ (returned s, w))
              (text_eq→≡ status (lit "stopped") y) k.2))
          (λ n. Triple-bind _ _ (Triple-call (z.stop_partition p) λ e w w' k h. tt) λ u.
            Triple-bind _ _ (Triple-call (z.wait_partition p (lit "stopped")) λ e w w' k h. tt)
              λ u'. record { at = λ w k. pulled w (laws.wait_tells k.0 w k.2) })
    where
      pulled :
          (w : z.World)
          → IsStopped w
          → Post (λ u w'. IsStopped w') AnyError (z.pull_partition p w).0 (z.pull_partition p w).1
      pulled w s = go (z.pull_partition p w).0 (z.pull_partition p w).1 (laws.pull_keeps w s)
        where
          go :
              (r : Outcome (Unit {0})) (w' : z.World)
              → IsStopped w'
              → Post (λ u w'. IsStopped w') AnyError r w'
          go (returned u) w' s = s
          go (raised e) w' s = tt

  -- The partition had these properties when they were read.
  abbrev pub WereRead : PartitionProperties → Type 0
  WereRead properties = (w : z.World) × ((z.partition_properties p w).0 ≡ returned properties)

  -- The last call updated the partition, which was stopped, with all that was to change.
  pub record UpdatedStopped (args : ResourceArgs) (w : z.World) : Type 0 where
    pub properties : PartitionProperties
    pub were_read : WereRead properties
    pub before : z.World
    pub stopped : IsStopped before
    pub updated : z.update_partition p (partition_updates args properties) before ≡ (returned tt, w)

  -- Where the status tells when the partition is stopped: _update_resources_partition returns either
  -- without an update, since none of the properties that it read was to change, or with an update as the last call, made
  -- while the partition was stopped.
  pub update_resources_partition-UpdatedStopped :
      (args : ResourceArgs)
      → Triple Anywhere
          (update_resources_partition z args p)
          (λ u w.
            ((properties : PartitionProperties) × WereRead properties
              × (partition_updates args properties ≡ []))
            ⊎ UpdatedStopped args w)
          AnyError
  unfolding update_resources_partition
  update_resources_partition-UpdatedStopped args =
      Triple-bind _ _ (Triple-call (z.pull_partition p) λ e w w' k h. tt) λ u.
        Triple-bind _ _ (Triple-call (z.partition_properties p) λ e w w' k h. tt) λ properties.
          record {
            at = λ w k.
                (update properties (k.0, ap (λ x. x.0) k.2) (partition_updates args properties)
                    refl).at
                  w tt;
          }
    where
      update :
          (properties : PartitionProperties) (were : WereRead properties) (us : Properties)
          → partition_updates args properties ≡ us
          → Triple Anywhere
              (elim us as (λ x. Method z.World (Unit {0})) [
                | [] ↦ pure tt
                | v ∷ vs ↦ (do stop_for_update z p; z.update_partition p (v ∷ vs))
              ])
              (λ u w.
                ((properties : PartitionProperties) × WereRead properties
                  × (partition_updates args properties ≡ []))
                ⊎ UpdatedStopped args w)
              AnyError
      update properties were [] e = Triple-pure tt λ w k. inl (properties, were, e)
      update properties were (v ∷ vs) e = Triple-bind _ _ stop_for_update-IsStopped λ u. record {
        at = λ w k.
            done w k (z.update_partition p (v ∷ vs) w).0 (z.update_partition p (v ∷ vs) w).1 refl;
      }
        where
          done :
              (w : z.World)
              → IsStopped w
              → (r : Outcome (Unit {0})) (w' : z.World) → z.update_partition p (v ∷ vs) w ≡ (r, w')
              → Post
                  (λ u w.
                    ((properties : PartitionProperties) × WereRead properties
                      × (partition_updates args properties ≡ []))
                    ⊎ UpdatedStopped args w)
                  AnyError
                  r
                  w'
          done w s (returned tt) w' h = inr (record {
            properties = properties;
            were_read = were;
            before = w;
            stopped = s;
            updated = subst (λ us. z.update_partition p us w ≡ (returned tt, w')) (sym e) h;
          })
          done w s (raised x) w' h = tt
