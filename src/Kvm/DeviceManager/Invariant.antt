-- ===== src/Kvm/DeviceManager/Invariant.antt =====
-- What holds of a TargetDeviceManager after any calls of its methods, failed ones included.
use mathlib.Core.Logic.{◌∨₁◌, ∨₁_prop}
use mathlib.Core.Logic.Or
use mathlib.Core.List.{
  mem-append, mem-append_left, Mem-prop, mem-cons_self, mem-append_right, Nodup-nil, append_assoc,
  append-nil,
}
use tessia_baselib.Prelude.{
  ℕ, ◌+◌, ◌≤◌, ◌<◌, ◌≡◌, sym, subst, ◌∙◌, true, List, [], ◌∷◌, ◌++◌, Mem, Nodup, Nodup-snoc, Text,
  arith, All, All-append, All-map, All-drop, All-at, dec_lt,
}
use tessia_baselib.Python.{Outcome, returned, raised}
use tessia_baselib.Python.Rules.{Post}
use tessia_baselib.Kvm.DeviceManager.{
  TargetDeviceManager, init, XmlAttributes, last_devno, get_valid_dev, get_valid_devno,
  update_dev_blacklist, update_devno_blacklist,
}
use tessia_baselib.Kvm.DeviceManager.Format.{devno_text, is_devname, is_devno}
use tessia_baselib.Kvm.DeviceManager.Names.{valid_devs}
use tessia_baselib.Kvm.DeviceManager.Wellformed.{is_devname-valid_devs, is_devno-devno_text}
use tessia_baselib.Kvm.DeviceManager.Contract.{
  DevTaken, DevsExhausted, DevnoTaken, DevnosExhausted, get_valid_dev_lem, get_valid_devno_lem,
}
use tessia_baselib.Kvm.DeviceManager.Given.{
  DevGiven, DevRefused, DevnoGiven, DevnoRefused, update_dev_blacklist_lem,
  update_devno_blacklist_lem,
}

pub record IsValid (m : TargetDeviceManager) : Type 0 where
  -- nothing is taken twice, and what is taken is well formed
  pub devs_unique : Nodup m.dev_blacklist
  pub devs_wellformed : All (λ t. is_devname t ≡ true) m.dev_blacklist
  pub devnos_unique : Nodup m.devno_blacklist
  pub devnos_wellformed : All (λ t. is_devno t ≡ true) m.devno_blacklist
  -- what the generators have passed over is taken
  pub names_wellformed : All (λ t. is_devname t ≡ true) m.generate_devname
  pub names_passed :
      (t : Text) → Mem t valid_devs → Mem t m.generate_devname ∨₁ Mem t m.dev_blacklist
  pub numbers_from_1 : 0 < m.next_devno
  pub numbers_bounded : m.next_devno ≤ last_devno
  pub numbers_passed : (k : ℕ) → 0 < k → k < m.next_devno → Mem (devno_text k) m.devno_blacklist

pub init-IsValid : IsValid init
unfolding init
init-IsValid = record {
  devs_unique = Nodup-nil;
  devs_wellformed = tt;
  devnos_unique = Nodup-nil;
  devnos_wellformed = tt;
  names_wellformed = is_devname-valid_devs;
  names_passed = λ t h. Or.inl h;
  numbers_from_1 = omega arith;
  numbers_bounded = omega arith;
  numbers_passed = λ k a b. absurd (omega arith);
}

-- One more name at the end of the list of taken names.
add_dev :
    (m : TargetDeviceManager) (d : Text)
    → IsValid m
    → is_devname d ≡ true
    → ¬ Mem d m.dev_blacklist
    → IsValid (record m { dev_blacklist = m.dev_blacklist ++ d ∷ [] })
add_dev m d v w f = record {
  devs_unique = Nodup-snoc m.dev_blacklist d v.devs_unique f;
  devs_wellformed =
      All-append (λ t. is_devname t ≡ true) m.dev_blacklist (d ∷ []) v.devs_wellformed (w, tt);
  devnos_unique = v.devnos_unique;
  devnos_wellformed = v.devnos_wellformed;
  names_wellformed = v.names_wellformed;
  names_passed = λ t h.
      Or.elim ∨₁_prop (v.names_passed t h) (λ a. Or.inl a) (λ b. Or.inr (mem-append_left _ b));
  numbers_from_1 = v.numbers_from_1;
  numbers_bounded = v.numbers_bounded;
  numbers_passed = v.numbers_passed;
}

add_devno :
    (m : TargetDeviceManager) (d : Text)
    → IsValid m
    → is_devno d ≡ true
    → ¬ Mem d m.devno_blacklist
    → IsValid (record m { devno_blacklist = m.devno_blacklist ++ d ∷ [] })
add_devno m d v w f = record {
  devs_unique = v.devs_unique;
  devs_wellformed = v.devs_wellformed;
  devnos_unique = Nodup-snoc m.devno_blacklist d v.devnos_unique f;
  devnos_wellformed =
      All-append (λ t. is_devno t ≡ true) m.devno_blacklist (d ∷ []) v.devnos_wellformed (w, tt);
  names_wellformed = v.names_wellformed;
  names_passed = v.names_passed;
  numbers_from_1 = v.numbers_from_1;
  numbers_bounded = v.numbers_bounded;
  numbers_passed = λ k a b. mem-append_left _ (v.numbers_passed k a b);
}

-- The generator moves past names that are taken.
drop_names :
    (m : TargetDeviceManager) (skipped rest : List Text)
    → IsValid m
    → m.generate_devname ≡ skipped ++ rest
    → All (λ t. Mem t m.dev_blacklist) skipped
    → IsValid (record m { generate_devname = rest })
drop_names m skipped rest v e h = record {
  devs_unique = v.devs_unique;
  devs_wellformed = v.devs_wellformed;
  devnos_unique = v.devnos_unique;
  devnos_wellformed = v.devnos_wellformed;
  names_wellformed =
      All-drop (λ t. is_devname t ≡ true) skipped rest
        (subst (All (λ t. is_devname t ≡ true)) e v.names_wellformed);
  names_passed = λ t n.
      Or.elim ∨₁_prop (v.names_passed t n)
        (λ a.
          Or.elim ∨₁_prop (mem-append.0 (subst (Mem t) e a))
            (λ s. Or.inr (All-at (λ x. Mem x m.dev_blacklist) (λ x. Mem-prop) skipped t h s))
            (λ r. Or.inl r))
        (λ b. Or.inr b);
  numbers_from_1 = v.numbers_from_1;
  numbers_bounded = v.numbers_bounded;
  numbers_passed = v.numbers_passed;
}

drop_numbers :
    (m : TargetDeviceManager) (n : ℕ)
    → IsValid m
    → m.next_devno ≤ n
    → n ≤ last_devno
    → ((k : ℕ) → m.next_devno ≤ k → k < n → Mem (devno_text k) m.devno_blacklist)
    → IsValid (record m { next_devno = n })
drop_numbers m n v a b h = record {
  devs_unique = v.devs_unique;
  devs_wellformed = v.devs_wellformed;
  devnos_unique = v.devnos_unique;
  devnos_wellformed = v.devnos_wellformed;
  names_wellformed = v.names_wellformed;
  names_passed = v.names_passed;
  numbers_from_1 = omega (arith, v.numbers_from_1);
  numbers_bounded = b;
  numbers_passed = λ k p q. elim (dec_lt k m.next_devno) [
    | yes before ↦ v.numbers_passed k p before
    | no after ↦ h k (omega arith) q
  ];
}

taken :
    (m : TargetDeviceManager) {d : Text} {m' : TargetDeviceManager}
    → IsValid m
    → (h : DevTaken m m.generate_devname d m')
    → IsValid (record m { dev_blacklist = m.dev_blacklist ++ d ∷ []; generate_devname = h.rest })
taken m {d = d} v h =
    drop_names (record m { dev_blacklist = m.dev_blacklist ++ d ∷ [] }) (h.skipped ++ d ∷ []) h.rest
      (add_dev m d v wellformed h.fresh) (h.split ∙ sym (append_assoc h.skipped (d ∷ []) h.rest))
      (All-append (λ t. Mem t (m.dev_blacklist ++ d ∷ [])) h.skipped (d ∷ [])
        (All-map (λ t. Mem t m.dev_blacklist) (λ t. Mem t (m.dev_blacklist ++ d ∷ [])) h.skipped
          (λ t b. mem-append_left _ b) h.skipped_taken)
        (mem-append_right m.dev_blacklist mem-cons_self, tt))
  where
    wellformed : is_devname d ≡ true
    wellformed =
        (All-drop (λ t. is_devname t ≡ true) h.skipped (d ∷ h.rest)
          (subst (All (λ t. is_devname t ≡ true)) h.split v.names_wellformed)).0

devno_taken :
    (m : TargetDeviceManager) {d : Text} {m' : TargetDeviceManager}
    → IsValid m
    → (h : DevnoTaken m d m')
    → IsValid
        (record m { devno_blacklist = m.devno_blacklist ++ d ∷ []; next_devno = h.number + 1 })
devno_taken m {d = d} v h =
    drop_numbers (record m { devno_blacklist = m.devno_blacklist ++ d ∷ [] }) (h.number + 1)
      (add_devno m d v wellformed h.fresh) (omega (arith, h.from_next))
      (omega (arith, h.below_last))
      (λ k a b. elim (dec_lt k h.number) [
        | yes before ↦ mem-append_left _ (h.skipped_taken k a before)
        | no after ↦
            let e : h.number ≡ k = omega arith in
            subst (λ j. Mem (devno_text j) (m.devno_blacklist ++ d ∷ [])) e
              (subst (λ t. Mem t (m.devno_blacklist ++ d ∷ [])) h.text
                (mem-append_right m.devno_blacklist mem-cons_self))
      ])
  where
    wellformed : is_devno d ≡ true
    wellformed =
        subst (λ t. is_devno t ≡ true) (sym h.text)
          (is_devno-devno_text h.number (omega (arith, h.below_last)))

-- Every method keeps the invariant, whether it returns or raises.
pub get_valid_dev-IsValid : (m : TargetDeviceManager) → IsValid m → IsValid (get_valid_dev m).1
get_valid_dev-IsValid m v = go (get_valid_dev m).0 (get_valid_dev m).1 (get_valid_dev_lem m)
  where
    go :
        (r : Outcome Text) (m' : TargetDeviceManager)
        → Post (DevTaken m m.generate_devname) (DevsExhausted m m.generate_devname) r m'
        → IsValid m'
    go (returned d) m' h = subst IsValid (sym h.after) (taken m v h)
    go (raised e) m' h =
        subst IsValid (sym h.after)
          (drop_names m m.generate_devname [] v (sym (append-nil m.generate_devname)) h.all_taken)

pub get_valid_devno-IsValid : (m : TargetDeviceManager) → IsValid m → IsValid (get_valid_devno m).1
get_valid_devno-IsValid m v =
    go (get_valid_devno m).0 (get_valid_devno m).1
      (get_valid_devno_lem m v.numbers_from_1 v.numbers_bounded)
  where
    go :
        (r : Outcome Text) (m' : TargetDeviceManager)
        → Post (DevnoTaken m) (DevnosExhausted m) r m'
        → IsValid m'
    go (returned d) m' h = subst IsValid (sym h.after) (devno_taken m v h)
    go (raised e) m' h =
        subst IsValid (sym h.after)
          (drop_numbers m last_devno v v.numbers_bounded (omega arith) h.all_taken)

module _ (xml : XmlAttributes) (text : Text) (m : TargetDeviceManager) (v : IsValid m) where
  pub update_dev_blacklist-IsValid : IsValid (update_dev_blacklist xml text m).1
  update_dev_blacklist-IsValid =
      go (update_dev_blacklist xml text m).0 (update_dev_blacklist xml text m).1
        (update_dev_blacklist_lem xml text m)
    where
      go :
          (r : Outcome Text) (m' : TargetDeviceManager)
          → Post (DevGiven xml text m) (DevRefused xml text m) r m'
          → IsValid m'
      go (returned d) m' h = subst IsValid (sym h.after) (add_dev m d v h.wellformed h.fresh)
      go (raised e) m' h = subst IsValid (sym h.after) v

  pub update_devno_blacklist-IsValid : IsValid (update_devno_blacklist xml text m).1
  update_devno_blacklist-IsValid =
      go (update_devno_blacklist xml text m).0 (update_devno_blacklist xml text m).1
        (update_devno_blacklist_lem xml text m)
    where
      go :
          (r : Outcome Text) (m' : TargetDeviceManager)
          → Post (DevnoGiven xml text m) (DevnoRefused xml text m) r m'
          → IsValid m'
      go (returned d) m' h = subst IsValid (sym h.after) (add_devno m d v h.wellformed h.fresh)
      go (raised e) m' h = subst IsValid (sym h.after) v
