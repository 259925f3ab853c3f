-- ===== src/Kvm/DeviceManager/History.antt =====
-- Any sequence of calls on one TargetDeviceManager, by code that goes on after an exception.
use mathlib.Core.List.{append_assoc, append-nil, Mem-prop}
use mathlib.Core.Logic.Or
use tessia_baselib.Prelude.{
  ◌⊎◌, inl, inr, refl, ◌≡◌, sym, ap, ◌∙◌, subst, List, [], ◌∷◌, ◌++◌, Mem, Nodup, Text, All-at,
}
use tessia_baselib.Python.{runtime_error, Outcome, returned, raised, Method}
use tessia_baselib.Python.Rules.{Post}
use tessia_baselib.Kvm.DeviceManager.{
  TargetDeviceManager, init, XmlAttributes, get_valid_dev, get_valid_devno, update_dev_blacklist,
  update_devno_blacklist,
}
use tessia_baselib.Kvm.DeviceManager.Names.{valid_devs}
use tessia_baselib.Kvm.DeviceManager.Contract.{DevTaken, DevsExhausted, get_valid_dev_lem}
use tessia_baselib.Kvm.DeviceManager.Adds.{
  answer, Adds, get_valid_dev-Adds, get_valid_devno-Adds, update_dev_blacklist-Adds,
  update_devno_blacklist-Adds,
}
use tessia_baselib.Kvm.DeviceManager.Invariant.{
  IsValid, init-IsValid, get_valid_dev-IsValid, get_valid_devno-IsValid,
  update_dev_blacklist-IsValid, update_devno_blacklist-IsValid,
}

pub data Call : Type 0 where
  next_dev next_devno : Call
  given_dev given_devno : Text → Call

module _ (xml : XmlAttributes) where
  unfoldable pub perform : Call → Method TargetDeviceManager Text
  perform next_dev = get_valid_dev
  perform next_devno = get_valid_devno
  perform (given_dev text) = update_dev_blacklist xml text
  perform (given_devno text) = update_devno_blacklist xml text

  abbrev dev_answer : Call → Outcome Text → List Text
  dev_answer next_dev r = answer r
  dev_answer (given_dev text) r = answer r
  dev_answer _ r = []

  abbrev devno_answer : Call → Outcome Text → List Text
  devno_answer next_devno r = answer r
  devno_answer (given_devno text) r = answer r
  devno_answer _ r = []

  unfoldable pub run_calls : List Call → TargetDeviceManager → TargetDeviceManager
  unfolding perform
  run_calls [] m = m
  run_calls (c ∷ cs) m = run_calls cs (perform c m).1

  -- the device names, and the device numbers, that the calls have handed out, in order
  unfoldable pub dev_answers : List Call → TargetDeviceManager → List Text
  unfolding perform
  dev_answers [] m = []
  dev_answers (c ∷ cs) m = dev_answer c (perform c m).0 ++ dev_answers cs (perform c m).1

  unfoldable pub devno_answers : List Call → TargetDeviceManager → List Text
  unfolding perform
  devno_answers [] m = []
  devno_answers (c ∷ cs) m = devno_answer c (perform c m).0 ++ devno_answers cs (perform c m).1

  perform-IsValid : (c : Call) (m : TargetDeviceManager) → IsValid m → IsValid (perform c m).1
  unfolding perform
  perform-IsValid next_dev m v = get_valid_dev-IsValid m v
  perform-IsValid next_devno m v = get_valid_devno-IsValid m v
  perform-IsValid (given_dev text) m v = update_dev_blacklist-IsValid xml text m v
  perform-IsValid (given_devno text) m v = update_devno_blacklist-IsValid xml text m v

  perform-Adds :
      (c : Call) (m : TargetDeviceManager)
      → IsValid m
      → Adds m (dev_answer c (perform c m).0) (devno_answer c (perform c m).0) (perform c m).1
  unfolding perform
  perform-Adds next_dev m v = get_valid_dev-Adds m
  perform-Adds next_devno m v = get_valid_devno-Adds m v
  perform-Adds (given_dev text) m v = update_dev_blacklist-Adds xml text m
  perform-Adds (given_devno text) m v = update_devno_blacklist-Adds xml text m

  pub run_calls-IsValid :
      (cs : List Call) (m : TargetDeviceManager) → IsValid m → IsValid (run_calls cs m)
  unfolding run_calls
  run_calls-IsValid [] m v = v
  run_calls-IsValid (c ∷ cs) m v = run_calls-IsValid cs (perform c m).1 (perform-IsValid c m v)

  run_calls-Adds :
      (cs : List Call) (m : TargetDeviceManager)
      → IsValid m
      → Adds m (dev_answers cs m) (devno_answers cs m) (run_calls cs m)
  unfolding run_calls dev_answers devno_answers
  run_calls-Adds [] m v = record {
    devs_added = sym (append-nil m.dev_blacklist);
    devnos_added = sym (append-nil m.devno_blacklist);
  }
  run_calls-Adds (c ∷ cs) m v =
      let one = perform-Adds c m v in
      let rest = run_calls-Adds cs (perform c m).1 (perform-IsValid c m v) in
      record {
        devs_added =
            rest.devs_added
            ∙ ap (λ l. l ++ dev_answers cs (perform c m).1) one.devs_added
            ∙ append_assoc m.dev_blacklist (dev_answer c (perform c m).0)
                (dev_answers cs (perform c m).1);
        devnos_added =
            rest.devnos_added
            ∙ ap (λ l. l ++ devno_answers cs (perform c m).1) one.devnos_added
            ∙ append_assoc m.devno_blacklist (devno_answer c (perform c m).0)
                (devno_answers cs (perform c m).1);
      }

  -- Whatever methods are called on a new manager, in any order and whether they raise or not, the
  -- device names that they return are pairwise distinct, and so are the device numbers.
  pub answers_distinct :
      (cs : List Call) → Nodup (dev_answers cs init) × Nodup (devno_answers cs init)
  unfolding init
  answers_distinct cs =
      let added = run_calls-Adds cs init init-IsValid in
      let valid = run_calls-IsValid cs init init-IsValid in
      (
        subst Nodup added.devs_added valid.devs_unique,
        subst Nodup added.devnos_added valid.devnos_unique,
      )

  -- After any calls on a new manager, `get_valid_dev` either returns a name that was not taken, or
  -- raises RuntimeError and then every name that the generator can yield has been taken.
  pub dev_or_none_left :
      (cs : List Call)
      → let m = run_calls cs init in
        ((d : Text) × ((get_valid_dev m).0 ≡ returned d) × (¬ Mem d m.dev_blacklist))
        ⊎ (((get_valid_dev m).0 ≡ raised (runtime_error "Out of valid devices"))
            × ((t : Text) → Mem t valid_devs → Mem t m.dev_blacklist))
  dev_or_none_left cs =
      let m = run_calls cs init in go (get_valid_dev m).0 (get_valid_dev m).1 (get_valid_dev_lem m)
    where
      valid : IsValid (run_calls cs init)
      valid = run_calls-IsValid cs init init-IsValid

      go :
          (r : Outcome Text) (m' : TargetDeviceManager)
          → Post
              (DevTaken (run_calls cs init) (run_calls cs init).generate_devname)
              (DevsExhausted (run_calls cs init) (run_calls cs init).generate_devname)
              r
              m'
          → ((d : Text) × (r ≡ returned d) × (¬ Mem d (run_calls cs init).dev_blacklist))
            ⊎ ((r ≡ raised (runtime_error "Out of valid devices"))
                × ((t : Text) → Mem t valid_devs → Mem t (run_calls cs init).dev_blacklist))
      go (returned d) m' p = inl (d, refl, p.fresh)
      go (raised e) m' p = inr (
        ap raised p.error,
        λ t n.
            Or.elim Mem-prop (valid.names_passed t n)
              (λ left.
                All-at (λ x. Mem x (run_calls cs init).dev_blacklist) (λ x. Mem-prop)
                  (run_calls cs init).generate_devname t p.all_taken left)
              (λ known. known),
      )
