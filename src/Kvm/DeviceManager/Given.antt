-- ===== src/Kvm/DeviceManager/Given.antt =====
-- What the two methods of TargetDeviceManager that read an xml definition do.
use tessia_baselib.Prelude.{
  ◌≡◌, refl, subst, none, true, false, Option, some, List, [], ◌∷◌, ◌++◌, Mem, Text, contains,
  contains→Mem, not-Mem, Bool-cases, inl, inr, ◌⊎◌,
}
use tessia_baselib.Python.{Error, Outcome, returned, raised, ◌>>=◌}
use tessia_baselib.Python.Rules.{Post}
use tessia_baselib.Kvm.DeviceManager.{
  TargetDeviceManager, XmlAttributes, only_attribute, update_dev_blacklist, update_devno_blacklist,
}
use tessia_baselib.Kvm.DeviceManager.Format.{is_devname, is_devno}

-- The xml has one element with the attribute `d`.
abbrev pub Names : Outcome (List (Option Text)) → Text → Type 0
Names found d = found ≡ returned (some d ∷ [])

module _ (xml : XmlAttributes) (text : Text) (m : TargetDeviceManager) where
  -- Accepted: the name is well formed, was not taken, and stands at the end of the list now.
  pub record DevGiven (d : Text) (m' : TargetDeviceManager) : Type 0 where
    pub named : Names (xml.targets text) d
    pub wellformed : is_devname d ≡ true
    pub fresh : ¬ Mem d m.dev_blacklist
    pub after : m' ≡ record m { dev_blacklist = m.dev_blacklist ++ d ∷ [] }

  -- Refused: nothing changes, and no name that could be accepted is named.
  pub record DevRefused (e : Error) (m' : TargetDeviceManager) : Type 0 where
    pub reason :
        (d : Text) → Names (xml.targets text) d → (is_devname d ≡ false) ⊎ Mem d m.dev_blacklist
    pub after : m' ≡ m

  -- The same for device numbers.
  pub record DevnoGiven (d : Text) (m' : TargetDeviceManager) : Type 0 where
    pub named : Names (xml.addresses text) d
    pub wellformed : is_devno d ≡ true
    pub fresh : ¬ Mem d m.devno_blacklist
    pub after : m' ≡ record m { devno_blacklist = m.devno_blacklist ++ d ∷ [] }

  pub record DevnoRefused (e : Error) (m' : TargetDeviceManager) : Type 0 where
    pub reason :
        (d : Text) → Names (xml.addresses text) d → (is_devno d ≡ false) ⊎ Mem d m.devno_blacklist
    pub after : m' ≡ m

-- `update_dev_blacklist` accepts exactly an xml with one target whose `dev` attribute is well
-- formed and not taken, and records it; otherwise it raises and nothing changes.
pub update_dev_blacklist_lem :
    (xml : XmlAttributes) (text : Text) (m : TargetDeviceManager)
    → Post
        (DevGiven xml text m)
        (DevRefused xml text m)
        (update_dev_blacklist xml text m).0
        (update_dev_blacklist xml text m).1
unfolding update_dev_blacklist only_attribute ◌>>=◌
update_dev_blacklist_lem xml text m = go (xml.targets text) refl
  where
    go :
        (found : Outcome (List (Option Text)))
        → xml.targets text ≡ found
        → Post
            (DevGiven xml text m)
            (DevRefused xml text m)
            (update_dev_blacklist xml text m).0
            (update_dev_blacklist xml text m).1
    go (returned (some t ∷ [])) h = elim (Bool-cases (is_devname t)) [
      | inl good ↦ elim (Bool-cases (contains m.dev_blacklist t)) [
        | inl known ↦
            let taken : Mem t m.dev_blacklist = contains→Mem m.dev_blacklist t known in
            rw (h, good, known)
              (record {
                reason =
                    λ d n. inr (let e : t ≡ d = cc in subst (λ x. Mem x m.dev_blacklist) e taken);
                after = refl;
              })
        | inr new ↦
            rw (h, good, new)
              (record {
                named = h;
                wellformed = good;
                fresh = not-Mem m.dev_blacklist t new;
                after = refl;
              })
      ]
      | inr bad ↦
          rw (h, bad)
            (record { reason = λ d n. inl (let e : t ≡ d = cc in rw (← e) bad); after = refl })
    ]
    go (raised e) h = rw h (record { reason = λ d n. cc; after = refl })
    go (returned []) h = rw h (record { reason = λ d n. cc; after = refl })
    go (returned (none ∷ [])) h = rw h (record { reason = λ d n. cc; after = refl })
    go (returned (none ∷ (y ∷ ys))) h = rw h (record { reason = λ d n. cc; after = refl })
    go (returned (some t ∷ (y ∷ ys))) h = rw h (record { reason = λ d n. cc; after = refl })

-- `update_devno_blacklist` accepts exactly an xml with one address whose `devno` attribute is well
-- formed and not taken, and records it; otherwise it raises and nothing changes.
pub update_devno_blacklist_lem :
    (xml : XmlAttributes) (text : Text) (m : TargetDeviceManager)
    → Post
        (DevnoGiven xml text m)
        (DevnoRefused xml text m)
        (update_devno_blacklist xml text m).0
        (update_devno_blacklist xml text m).1
unfolding update_devno_blacklist only_attribute ◌>>=◌
update_devno_blacklist_lem xml text m = go (xml.addresses text) refl
  where
    go :
        (found : Outcome (List (Option Text)))
        → xml.addresses text ≡ found
        → Post
            (DevnoGiven xml text m)
            (DevnoRefused xml text m)
            (update_devno_blacklist xml text m).0
            (update_devno_blacklist xml text m).1
    go (returned (some t ∷ [])) h = elim (Bool-cases (is_devno t)) [
      | inl good ↦ elim (Bool-cases (contains m.devno_blacklist t)) [
        | inl known ↦
            let taken : Mem t m.devno_blacklist = contains→Mem m.devno_blacklist t known in
            rw (h, good, known)
              (record {
                reason =
                    λ d n. inr (let e : t ≡ d = cc in subst (λ x. Mem x m.devno_blacklist) e taken);
                after = refl;
              })
        | inr new ↦
            rw (h, good, new)
              (record {
                named = h;
                wellformed = good;
                fresh = not-Mem m.devno_blacklist t new;
                after = refl;
              })
      ]
      | inr bad ↦
          rw (h, bad)
            (record { reason = λ d n. inl (let e : t ≡ d = cc in rw (← e) bad); after = refl })
    ]
    go (raised e) h = rw h (record { reason = λ d n. cc; after = refl })
    go (returned []) h = rw h (record { reason = λ d n. cc; after = refl })
    go (returned (none ∷ [])) h = rw h (record { reason = λ d n. cc; after = refl })
    go (returned (none ∷ (y ∷ ys))) h = rw h (record { reason = λ d n. cc; after = refl })
    go (returned (some t ∷ (y ∷ ys))) h = rw h (record { reason = λ d n. cc; after = refl })
