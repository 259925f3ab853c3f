-- ===== src/Kvm/DeviceManager/Adds.antt =====
-- What each method of TargetDeviceManager adds to the two lists of taken names.
use mathlib.Core.List.{append-nil}
use tessia_baselib.Prelude.{◌≡◌, sym, ap, ◌∙◌, List, [], ◌∷◌, ◌++◌, Text}
use tessia_baselib.Python.{Outcome, returned, raised}
use tessia_baselib.Python.Rules.{Post}
use tessia_baselib.Kvm.DeviceManager.{
  TargetDeviceManager, XmlAttributes, get_valid_dev, get_valid_devno, update_dev_blacklist,
  update_devno_blacklist,
}
use tessia_baselib.Kvm.DeviceManager.Contract.{
  DevTaken, DevsExhausted, DevnoTaken, DevnosExhausted, get_valid_dev_lem, get_valid_devno_lem,
}
use tessia_baselib.Kvm.DeviceManager.Given.{
  DevGiven, DevRefused, DevnoGiven, DevnoRefused, update_dev_blacklist_lem,
  update_devno_blacklist_lem,
}
use tessia_baselib.Kvm.DeviceManager.Invariant.{IsValid}

-- The name or number that a call has handed out.
abbrev pub answer : Outcome Text → List Text
answer (returned t) = t ∷ []
answer (raised e) = []

-- What one method does to the two lists of taken names.
pub record Adds (m : TargetDeviceManager) (devs devnos : List Text) (m' : TargetDeviceManager)
    : Type 0 where
  pub devs_added : m'.dev_blacklist ≡ m.dev_blacklist ++ devs
  pub devnos_added : m'.devno_blacklist ≡ m.devno_blacklist ++ devnos

pub get_valid_dev-Adds :
    (m : TargetDeviceManager) → Adds m (answer (get_valid_dev m).0) [] (get_valid_dev m).1
get_valid_dev-Adds m = go (get_valid_dev m).0 (get_valid_dev m).1 (get_valid_dev_lem m)
  where
    go :
        (r : Outcome Text) (m' : TargetDeviceManager)
        → Post (DevTaken m m.generate_devname) (DevsExhausted m m.generate_devname) r m'
        → Adds m (answer r) [] m'
    go (returned d) m' h = record {
      devs_added = ap (λ n. n.dev_blacklist) h.after;
      devnos_added = ap (λ n. n.devno_blacklist) h.after ∙ sym (append-nil m.devno_blacklist);
    }
    go (raised e) m' h = record {
      devs_added = ap (λ n. n.dev_blacklist) h.after ∙ sym (append-nil m.dev_blacklist);
      devnos_added = ap (λ n. n.devno_blacklist) h.after ∙ sym (append-nil m.devno_blacklist);
    }

pub get_valid_devno-Adds :
    (m : TargetDeviceManager)
    → IsValid m
    → Adds m [] (answer (get_valid_devno m).0) (get_valid_devno m).1
get_valid_devno-Adds m v =
    go (get_valid_devno m).0 (get_valid_devno m).1
      (get_valid_devno_lem m v.numbers_from_1 v.numbers_bounded)
  where
    go :
        (r : Outcome Text) (m' : TargetDeviceManager)
        → Post (DevnoTaken m) (DevnosExhausted m) r m'
        → Adds m [] (answer r) m'
    go (returned d) m' h = record {
      devs_added = ap (λ n. n.dev_blacklist) h.after ∙ sym (append-nil m.dev_blacklist);
      devnos_added = ap (λ n. n.devno_blacklist) h.after;
    }
    go (raised e) m' h = record {
      devs_added = ap (λ n. n.dev_blacklist) h.after ∙ sym (append-nil m.dev_blacklist);
      devnos_added = ap (λ n. n.devno_blacklist) h.after ∙ sym (append-nil m.devno_blacklist);
    }

module _ (xml : XmlAttributes) (text : Text) (m : TargetDeviceManager) where
  pub update_dev_blacklist-Adds :
      Adds m (answer (update_dev_blacklist xml text m).0) [] (update_dev_blacklist xml text m).1
  update_dev_blacklist-Adds =
      go (update_dev_blacklist xml text m).0 (update_dev_blacklist xml text m).1
        (update_dev_blacklist_lem xml text m)
    where
      go :
          (r : Outcome Text) (m' : TargetDeviceManager)
          → Post (DevGiven xml text m) (DevRefused xml text m) r m'
          → Adds m (answer r) [] m'
      go (returned d) m' h = record {
        devs_added = ap (λ n. n.dev_blacklist) h.after;
        devnos_added = ap (λ n. n.devno_blacklist) h.after ∙ sym (append-nil m.devno_blacklist);
      }
      go (raised e) m' h = record {
        devs_added = ap (λ n. n.dev_blacklist) h.after ∙ sym (append-nil m.dev_blacklist);
        devnos_added = ap (λ n. n.devno_blacklist) h.after ∙ sym (append-nil m.devno_blacklist);
      }

  pub update_devno_blacklist-Adds :
      Adds m [] (answer (update_devno_blacklist xml text m).0) (update_devno_blacklist xml text m).1
  update_devno_blacklist-Adds =
      go (update_devno_blacklist xml text m).0 (update_devno_blacklist xml text m).1
        (update_devno_blacklist_lem xml text m)
    where
      go :
          (r : Outcome Text) (m' : TargetDeviceManager)
          → Post (DevnoGiven xml text m) (DevnoRefused xml text m) r m'
          → Adds m [] (answer r) m'
      go (returned d) m' h = record {
        devs_added = ap (λ n. n.dev_blacklist) h.after ∙ sym (append-nil m.dev_blacklist);
        devnos_added = ap (λ n. n.devno_blacklist) h.after;
      }
      go (raised e) m' h = record {
        devs_added = ap (λ n. n.dev_blacklist) h.after ∙ sym (append-nil m.dev_blacklist);
        devnos_added = ap (λ n. n.devno_blacklist) h.after ∙ sym (append-nil m.devno_blacklist);
      }
