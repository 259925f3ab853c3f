-- ===== src/Hmc/Resources/Updates.antt =====
-- The updates that are sent to the console, and when they make the guest what is asked for.
use tessia_baselib.Prelude.{
  ℕ, ◌==◌, ==_iff, true, false, ◌≡◌, ◌≢◌, ◌⊎◌, ◌↔◌, refl, ap, sym, ◌∙◌, Bool-cases, inl, inr,
  Option, none, some, [], ◌∷◌, ◌++◌, Text, lit, text_eq, text_eq→≡, text_eq_refl, arith,
  if◌then◌else◌,
}
use tessia_baselib.Hmc.Client.{Value, text, number, flag, null, Properties, PartitionProperties}
use tessia_baselib.Hmc.Resources.{ResourceArgs, differing, shared, sharing, partition_updates}

-- What the console does with one entry of an update, by its documented name.
apply_entry : Text → Value → PartitionProperties → PartitionProperties
apply_entry k (number n) p =
    if text_eq k (lit "initial-memory")
    then record p { initial_memory = n }
    else if text_eq k (lit "maximum-memory")
    then record p { maximum_memory = n }
    else if text_eq k (lit "cp-processors")
    then record p { cp = n }
    else if text_eq k (lit "ifl-processors")
    then record p { ifl = n }
    else p
apply_entry k (text t) p = if text_eq k (lit "processor-mode") then record p { mode = t } else p
apply_entry k (flag b) p = p
apply_entry k null p = p

unfoldable pub apply : Properties → PartitionProperties → PartitionProperties
unfolding apply_entry
apply [] p = p
apply ((k, v) ∷ us) p = apply us (apply_entry k v p)

abbrev or_old : Option ℕ → ℕ → ℕ
or_old none old = old
or_old (some new) old = new

abbrev new_initial : Option ℕ → ℕ → ℕ → ℕ
new_initial none maximum initial = initial
new_initial (some new) maximum initial = if maximum == new then initial else new

-- What the updates make of a partition: the initial memory changes only with the maximum.
unfoldable pub updated : ResourceArgs → PartitionProperties → PartitionProperties
updated args p = record {
  initial_memory = new_initial args.mem p.maximum_memory p.initial_memory;
  maximum_memory = or_old args.mem p.maximum_memory;
  cp = or_old args.cp p.cp;
  ifl = or_old args.ifl p.ifl;
  mode = shared;
}

apply-append :
    (us vs : Properties) (p : PartitionProperties) → apply (us ++ vs) p ≡ apply vs (apply us p)
unfolding apply
apply-append [] vs p = refl
apply-append ((k, v) ∷ us) vs p = apply-append us vs (apply_entry k v p)

apply-mem :
    (o : Option ℕ) (p : PartitionProperties)
    → apply
        (differing o p.maximum_memory
          (λ n. (lit "initial-memory", number n) ∷ ((lit "maximum-memory", number n) ∷ [])))
        p
      ≡ record p {
        initial_memory = new_initial o p.maximum_memory p.initial_memory;
        maximum_memory = or_old o p.maximum_memory;
      }
unfolding apply differing text_eq lit
apply-mem none p = refl
apply-mem (some n) p = ground arith

apply-cp :
    (o : Option ℕ) (p : PartitionProperties)
    → apply (differing o p.cp (λ n. (lit "cp-processors", number n) ∷ [])) p
      ≡ record p { cp = or_old o p.cp }
unfolding apply differing text_eq lit
apply-cp none p = refl
apply-cp (some n) p = ground arith

apply-ifl :
    (o : Option ℕ) (p : PartitionProperties)
    → apply (differing o p.ifl (λ n. (lit "ifl-processors", number n) ∷ [])) p
      ≡ record p { ifl = or_old o p.ifl }
unfolding apply differing text_eq lit
apply-ifl none p = refl
apply-ifl (some n) p = ground arith

apply-sharing :
    (p : PartitionProperties)
    → apply (sharing (lit "processor-mode") p.mode) p ≡ record p { mode = shared }
unfolding apply sharing
apply-sharing p = elim (Bool-cases (text_eq p.mode shared)) [
  | inl y ↦ rw y (ap (λ m. record p { mode = m }) (text_eq→≡ p.mode shared y))
  | inr n ↦ rw (n, text_eq_refl (lit "processor-mode")) refl
]

differing-nil :
    (o : Option ℕ) (old : ℕ) (es : ℕ → Properties) → or_old o old ≡ old → differing o old es ≡ []
unfolding differing
differing-nil none old es e = refl
differing-nil (some n) old es e = rw ((==_iff old n).1 (sym e)) refl

sharing-nil : (key mode : Text) → shared ≡ mode → sharing key mode ≡ []
unfolding sharing
sharing-nil key mode e = rw (← e, text_eq_refl shared) refl

apply-updated :
    (args : ResourceArgs) (p : PartitionProperties)
    → apply (partition_updates args p) p ≡ updated args p
unfolding partition_updates updated
apply-updated args p =
    let mem =
      differing args.mem p.maximum_memory
        (λ n. (lit "initial-memory", number n) ∷ ((lit "maximum-memory", number n) ∷ [])) in
    let cps = differing args.cp p.cp (λ n. (lit "cp-processors", number n) ∷ []) in
    let ifls = differing args.ifl p.ifl (λ n. (lit "ifl-processors", number n) ∷ []) in
    let mode = sharing (lit "processor-mode") p.mode in
    let p₁ : PartitionProperties = record p {
      initial_memory = new_initial args.mem p.maximum_memory p.initial_memory;
      maximum_memory = or_old args.mem p.maximum_memory;
    } in
    let p₂ : PartitionProperties = record p₁ { cp = or_old args.cp p.cp } in
    let p₃ : PartitionProperties = record p₂ { ifl = or_old args.ifl p.ifl } in
    apply-append mem (cps ++ (ifls ++ mode)) p
    ∙ ap (apply (cps ++ (ifls ++ mode))) (apply-mem args.mem p)
    ∙ apply-append cps (ifls ++ mode) p₁
    ∙ ap (apply (ifls ++ mode)) (apply-cp args.cp p₁)
    ∙ apply-append ifls mode p₂
    ∙ ap (apply mode) (apply-ifl args.ifl p₂)
    ∙ apply-sharing p₃

-- There is none exactly if they would leave the partition as it is.
partition_updates_iff :
    (args : ResourceArgs) (p : PartitionProperties)
    → (partition_updates args p ≡ []) ↔ (updated args p ≡ p)
unfolding partition_updates updated apply
partition_updates_iff args p = (
  λ e. sym (apply-updated args p) ∙ ap (λ us. apply us p) e,
  λ e.
      rw
        (
          differing-nil args.mem p.maximum_memory _ (ap (λ q. q.maximum_memory) e),
          differing-nil args.cp p.cp _ (ap (λ q. q.cp) e),
          differing-nil args.ifl p.ifl _ (ap (λ q. q.ifl) e),
          sharing-nil (lit "processor-mode") p.mode (ap (λ q. q.mode) e),
        )
        refl,
)

-- The partition that is asked for: the memory that is given, initial and maximum, the processors that are
-- given, the others as they were, and shared processors.
unfoldable pub wanted : ResourceArgs → PartitionProperties → PartitionProperties
wanted args p = record {
  initial_memory = or_old args.mem p.initial_memory;
  maximum_memory = or_old args.mem p.maximum_memory;
  cp = or_old args.cp p.cp;
  ifl = or_old args.ifl p.ifl;
  mode = shared;
}

initial_iff :
    (o : Option ℕ) (maximum initial : ℕ)
    → (new_initial o maximum initial ≡ or_old o initial)
      ↔ ((o ≢ some maximum) ⊎ (initial ≡ maximum))
initial_iff none maximum initial = (λ e. inl (λ f. cc f), λ k. refl)
initial_iff (some n) maximum initial = elim (Bool-cases (maximum == n)) [
  | inl y ↦ (λ e. inr (same y (kept y e)), λ k. rw y (back y k))
  | inr f ↦ (λ e. inl (λ g. differ f g), λ k. rw f refl)
]
  where
    kept : (maximum == n) ≡ true → (if maximum == n then initial else n) ≡ n → initial ≡ n
    kept y e = ground (arith, y, e)

    same : (maximum == n) ≡ true → initial ≡ n → initial ≡ maximum
    same y e = ground (arith, y, e)

    back : (maximum == n) ≡ true → (some n ≢ some maximum) ⊎ (initial ≡ maximum) → initial ≡ n
    back y (inl k) = absurd (k (ap some (sym ((==_iff maximum n).0 y))))
    back y (inr k) = k ∙ (==_iff maximum n).0 y

    differ : (maximum == n) ≡ false → some n ≢ some maximum
    differ f g = ground (arith, f, g)

-- The updates that are computed for a partition make it the one that is asked for exactly if the memory
-- asked for is not the maximum that the partition has, or its initial memory is that maximum.
pub apply-partition_updates :
    (args : ResourceArgs) (p : PartitionProperties)
    → (apply (partition_updates args p) p ≡ wanted args p)
      ↔ ((args.mem ≢ some p.maximum_memory) ⊎ (p.initial_memory ≡ p.maximum_memory))
unfolding wanted updated
apply-partition_updates args p =
    let memory = initial_iff args.mem p.maximum_memory p.initial_memory in
    (
      λ e. memory.0 (ap (λ q. q.initial_memory) (sym (apply-updated args p) ∙ e)),
      λ k.
          apply-updated args p
          ∙ ap
              (λ m. record {
                initial_memory = m;
                maximum_memory = or_old args.mem p.maximum_memory;
                cp = or_old args.cp p.cp;
                ifl = or_old args.ifl p.ifl;
                mode = shared;
              })
              (memory.1 k),
    )
