-- ===== src/Kvm/DeviceManager.antt =====
-- TargetDeviceManager (tessia/baselib/hypervisors/kvm/target_device_manager.py): the device names
-- and device numbers of one KVM guest. The parsed xml is a parameter: `XmlAttributes` gives, for a
-- text, the attribute of each matching element that ElementTree finds, or none on a parse error.
pub mod Format
pub mod Names
pub mod Wellformed
pub mod Contract
pub mod Given
pub mod Invariant
pub mod Adds
pub mod History
mod Tests
use tessia_baselib.Prelude.{
  ℕ, zero, suc, ◌+◌, ◌==◌, String, ◌≡◌, Bool, true, false, Option, none, some, List, [], ◌∷◌, ◌++◌,
  Text, lit, contains, if◌then◌else◌, not,
}
use tessia_baselib.Python.{
  Error, runtime_error, value_error, type_error, out_of_fuel, foreign, Outcome, returned, raised,
  Method, pure, raise, lift, modify, gets, ◌>>=◌, ◌>>◌,
}
use Format.{devno_text, is_devname, is_devno}
use Names.{valid_devs}

pub record TargetDeviceManager : Type 0 where
  pub dev_blacklist : List Text
  pub devno_blacklist : List Text
  -- the names that the generator has not yielded yet
  pub generate_devname : List Text
  pub next_devno : ℕ

unfoldable pub init : TargetDeviceManager
init = record {
  dev_blacklist = [];
  devno_blacklist = [];
  generate_devname = valid_devs;
  next_devno = 1;
}

abbrev pub last_devno : ℕ
last_devno = 0xffff

unfoldable pub generate_devno : Method TargetDeviceManager Text
generate_devno m =
    if m.next_devno == last_devno
    then (raised (runtime_error "No more device numbers available."), m)
    else (returned (devno_text m.next_devno), record m { next_devno = m.next_devno + 1 })

-- `next` until the name is not on the list, then the append; the empty list is `StopIteration`
pick_dev : List Text → Method TargetDeviceManager Text
pick_dev [] m = (raised (runtime_error "Out of valid devices"), record m { generate_devname = [] })
pick_dev (name ∷ rest) m =
    let skipped = pick_dev rest m in
    if contains m.dev_blacklist name then skipped else (
      returned name,
      record m { dev_blacklist = m.dev_blacklist ++ name ∷ []; generate_devname = rest },
    )

unfoldable pub get_valid_dev : Method TargetDeviceManager Text
unfolding pick_dev
get_valid_dev m = pick_dev m.generate_devname m

-- The `while` loop, on fuel: every round takes one more number.
unfoldable pub pick_devno : ℕ → Method TargetDeviceManager Text
pick_devno zero m = (raised out_of_fuel, m)
pick_devno (suc fuel) m =
    (do
      devno ← generate_devno
      taken ← gets (λ s. contains s.devno_blacklist devno)
      if taken then pick_devno fuel else do
        modify (λ s. record s { devno_blacklist = s.devno_blacklist ++ devno ∷ [] })
        pure devno)
      m

unfoldable pub get_valid_devno : Method TargetDeviceManager Text
get_valid_devno = pick_devno last_devno

-- What ElementTree.fromstring and findall give for an xml text.
pub record XmlAttributes : Type 0 where
  -- the `dev` attribute of every `target` element
  pub targets : Text → Outcome (List (Option Text))
  -- the `devno` attribute of every `address` element
  pub addresses : Text → Outcome (List (Option Text))

-- `if len(elements) != 1: raise` and `elements[0].get(…)`; `re.match` refuses None
unfoldable pub only_attribute : List (Option Text) → Outcome Text
only_attribute (some t ∷ []) = returned t
only_attribute (none ∷ []) = raised (type_error "expected string or bytes-like object")
only_attribute _ = raised (value_error "Invalid xml")

unfoldable pub update_dev_blacklist : XmlAttributes → Text → Method TargetDeviceManager Text
update_dev_blacklist xml text = do
  found ← lift (xml.targets text)
  dev ← lift (only_attribute found)
  known ← gets (λ m. contains m.dev_blacklist dev)
  if not (is_devname dev)
      then raise (value_error "Invalid device name in xml")
      else if known
      then raise (value_error "Device {} previously defined")
      else do modify (λ m. record m { dev_blacklist = m.dev_blacklist ++ dev ∷ [] }); pure dev

unfoldable pub update_devno_blacklist : XmlAttributes → Text → Method TargetDeviceManager Text
update_devno_blacklist xml text = do
  found ← lift (xml.addresses text)
  devno ← lift (only_attribute found)
  known ← gets (λ m. contains m.devno_blacklist devno)
  if not (is_devno devno)
      then raise (value_error "Invalid device number in the xml")
      else if known
      then raise (value_error "Device number {} previously defined")
      else do
        modify (λ m. record m { devno_blacklist = m.devno_blacklist ++ devno ∷ [] })
        pure devno
