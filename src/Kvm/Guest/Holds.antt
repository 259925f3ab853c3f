-- ===== src/Kvm/Guest/Holds.antt =====
-- What a disk takes from a TargetDeviceManager that holds the devices handed out so far.
use mathlib.Core.List.{append-nil}
use tessia_baselib.Prelude.{◌≡◌, ap, ◌∙◌, Option, none, some, List, [], ◌∷◌, ◌++◌, Text}
use tessia_baselib.Python.{Error, Outcome, returned, raised}
use tessia_baselib.Python.Rules.{Post, Triple, Triple-pure, Triple-bind, Triple-lift}
use tessia_baselib.Kvm.DeviceManager.{
  TargetDeviceManager, XmlAttributes, get_valid_dev, get_valid_devno, update_dev_blacklist,
  update_devno_blacklist,
}
use tessia_baselib.Kvm.DeviceManager.Adds.{
  answer, Adds, get_valid_dev-Adds, get_valid_devno-Adds, update_dev_blacklist-Adds,
  update_devno_blacklist-Adds,
}
use tessia_baselib.Kvm.DeviceManager.Invariant.{
  IsValid, get_valid_dev-IsValid, get_valid_devno-IsValid, update_dev_blacklist-IsValid,
  update_devno_blacklist-IsValid,
}
use tessia_baselib.Kvm.Storage.{SystemAttributes, assign_devices}

-- A valid manager that holds just the devices handed out so far.
pub record Holds (devs devnos : List Text) (m : TargetDeviceManager) : Type 0 where
  pub valid : IsValid m
  pub devs_are : m.dev_blacklist ≡ devs
  pub devnos_are : m.devno_blacklist ≡ devnos

abbrev pub Fails : Error → TargetDeviceManager → Type 0
Fails e m = IsValid m

add_dev :
    (devs devnos : List Text) (m : TargetDeviceManager) (r : Outcome Text)
    (m' : TargetDeviceManager)
    → Holds devs devnos m
    → IsValid m'
    → Adds m (answer r) [] m'
    → Post (λ d. Holds (devs ++ d ∷ []) devnos) Fails r m'
add_dev devs devnos m (raised e) m' h v a = v
add_dev devs devnos m (returned d) m' h v a = record {
  valid = v;
  devs_are = a.devs_added ∙ ap (λ l. l ++ d ∷ []) h.devs_are;
  devnos_are = a.devnos_added ∙ append-nil m.devno_blacklist ∙ h.devnos_are;
}

add_devno :
    (devs devnos : List Text) (m : TargetDeviceManager) (r : Outcome Text)
    (m' : TargetDeviceManager)
    → Holds devs devnos m
    → IsValid m'
    → Adds m [] (answer r) m'
    → Post (λ d. Holds devs (devnos ++ d ∷ [])) Fails r m'
add_devno devs devnos m (raised e) m' h v a = v
add_devno devs devnos m (returned d) m' h v a = record {
  valid = v;
  devs_are = a.devs_added ∙ append-nil m.dev_blacklist ∙ h.devs_are;
  devnos_are = a.devnos_added ∙ ap (λ l. l ++ d ∷ []) h.devnos_are;
}

module _ (xml : XmlAttributes) where
  module _ (devs devnos : List Text) where
    next_dev : Triple (Holds devs devnos) get_valid_dev (λ d. Holds (devs ++ d ∷ []) devnos) Fails
    next_dev = record {
      at = λ m h.
          add_dev devs devnos m (get_valid_dev m).0 (get_valid_dev m).1 h
            (get_valid_dev-IsValid m h.valid) (get_valid_dev-Adds m);
    }

    pub next_devno :
        Triple (Holds devs devnos) get_valid_devno (λ d. Holds devs (devnos ++ d ∷ [])) Fails
    next_devno = record {
      at = λ m h.
          add_devno devs devnos m (get_valid_devno m).0 (get_valid_devno m).1 h
            (get_valid_devno-IsValid m h.valid) (get_valid_devno-Adds m h.valid);
    }

    given_dev :
        (text : Text)
        → Triple
            (Holds devs devnos)
            (update_dev_blacklist xml text)
            (λ d. Holds (devs ++ d ∷ []) devnos)
            Fails
    given_dev text = record {
      at = λ m h.
          add_dev devs devnos m (update_dev_blacklist xml text m).0
            (update_dev_blacklist xml text m).1 h (update_dev_blacklist-IsValid xml text m h.valid)
            (update_dev_blacklist-Adds xml text m);
    }

    pub given_devno :
        (text : Text)
        → Triple
            (Holds devs devnos)
            (update_devno_blacklist xml text)
            (λ d. Holds devs (devnos ++ d ∷ []))
            Fails
    given_devno text = record {
      at = λ m h.
          add_devno devs devnos m (update_devno_blacklist xml text m).0
            (update_devno_blacklist xml text m).1 h
            (update_devno_blacklist-IsValid xml text m h.valid)
            (update_devno_blacklist-Adds xml text m);
    }

  pub assign_devices_lem :
      (devs devnos : List Text) (a : Option SystemAttributes)
      → Triple
          (Holds devs devnos)
          (assign_devices xml a)
          (λ d. Holds (devs ++ d.1 ∷ []) (devnos ++ d.2 ∷ []))
          Fails
  unfolding assign_devices
  assign_devices_lem devs devnos none =
      Triple-bind _ _ (next_dev devs devnos)
        λ d. Triple-bind _ _ (next_devno (devs ++ d ∷ []) devnos) λ n. Triple-pure _ (λ s h. h)
  assign_devices_lem devs devnos (some a) =
      Triple-lift _ _
        (λ text e. Triple-bind _ _ (given_dev devs devnos text) λ d.
          Triple-bind _ _ (given_devno (devs ++ d ∷ []) devnos text) λ n. Triple-pure _ (λ s h. h))
        (λ e s r h. h.valid)
