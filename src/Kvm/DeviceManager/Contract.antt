-- ===== src/Kvm/DeviceManager/Contract.antt =====
-- What the two generating methods of TargetDeviceManager do, on success and on error.
use tessia_baselib.Prelude.{
  ℕ, zero, suc, ◌+◌, ◌-◌, ◌≤◌, ◌<◌, ◌==◌, ==_iff, ◌≡◌, refl, subst, dec_le, List, [], ◌∷◌, ◌++◌,
  Mem, Text, arith, All, contains, contains→Mem, not-Mem, Bool-cases, inl, inr,
}
use tessia_baselib.Python.{Error, runtime_error, Outcome, returned, raised, ◌>>=◌}
use tessia_baselib.Python.Rules.{Post}
use tessia_baselib.Kvm.DeviceManager.{
  TargetDeviceManager, last_devno, generate_devno, pick_dev, get_valid_dev, pick_devno,
  get_valid_devno,
}
use tessia_baselib.Kvm.DeviceManager.Format.{devno_text}

-- The name is the first of `names` that is not taken. It is added at the end of the list.
pub record DevTaken (m : TargetDeviceManager) (names : List Text) (d : Text)
    (m' : TargetDeviceManager) : Type 0 where
  pub skipped : List Text
  pub rest : List Text
  pub split : names ≡ skipped ++ d ∷ rest
  pub skipped_taken : All (λ t. Mem t m.dev_blacklist) skipped
  pub fresh : ¬ Mem d m.dev_blacklist
  pub after : m' ≡ record m { dev_blacklist = m.dev_blacklist ++ d ∷ []; generate_devname = rest }

pub record DevsExhausted (m : TargetDeviceManager) (names : List Text) (e : Error)
    (m' : TargetDeviceManager) : Type 0 where
  pub all_taken : All (λ t. Mem t m.dev_blacklist) names
  pub error : e ≡ runtime_error "Out of valid devices"
  pub after : m' ≡ record m { generate_devname = [] }

abbrev DevPost : TargetDeviceManager → List Text → Outcome Text → TargetDeviceManager → Type 0
DevPost m names = Post (DevTaken m names) (DevsExhausted m names)

skip_one :
    (m : TargetDeviceManager) (name : Text) (names : List Text) (r : Outcome Text)
    (m' : TargetDeviceManager)
    → Mem name m.dev_blacklist
    → DevPost m names r m'
    → DevPost m (name ∷ names) r m'
skip_one m name names (returned d) m' t h = record {
  skipped = name ∷ h.skipped;
  rest = h.rest;
  split = cc (h.split);
  skipped_taken = (t, h.skipped_taken);
  fresh = h.fresh;
  after = h.after;
}
skip_one m name names (raised e) m' t h = record {
  all_taken = (t, h.all_taken);
  error = h.error;
  after = h.after;
}

pick_dev_lem :
    (m : TargetDeviceManager) (names : List Text)
    → DevPost m names (pick_dev names m).0 (pick_dev names m).1
unfolding pick_dev
pick_dev_lem m [] = record { all_taken = tt; error = refl; after = refl }
pick_dev_lem m (name ∷ names) = elim (Bool-cases (contains m.dev_blacklist name)) [
  | inl known ↦ rw known (
      skip_one m name names (pick_dev names m).0 (pick_dev names m).1
        (contains→Mem m.dev_blacklist name known) (pick_dev_lem m names))
  | inr new ↦ rw new (record {
    skipped = [];
    rest = names;
    split = refl;
    skipped_taken = tt;
    fresh = not-Mem m.dev_blacklist name new;
    after = refl;
  })
]

-- `get_valid_dev` returns the first name of the generator that is not taken and appends it to the
-- taken names, or raises RuntimeError when every name left is taken, and then only the generator
-- has moved.
pub get_valid_dev_lem :
    (m : TargetDeviceManager)
    → Post
        (DevTaken m m.generate_devname)
        (DevsExhausted m m.generate_devname)
        (get_valid_dev m).0
        (get_valid_dev m).1
unfolding get_valid_dev
get_valid_dev_lem m = pick_dev_lem m m.generate_devname

-- The number is the first from `next_devno` on that is not taken.
pub record DevnoTaken (m : TargetDeviceManager) (d : Text) (m' : TargetDeviceManager) : Type 0 where
  pub number : ℕ
  pub from_next : m.next_devno ≤ number
  pub below_last : number < last_devno
  pub text : d ≡ devno_text number
  pub skipped_taken : (k : ℕ) → m.next_devno ≤ k → k < number → Mem (devno_text k) m.devno_blacklist
  pub fresh : ¬ Mem d m.devno_blacklist
  pub after :
      m' ≡ record m { devno_blacklist = m.devno_blacklist ++ d ∷ []; next_devno = number + 1 }

pub record DevnosExhausted (m : TargetDeviceManager) (e : Error) (m' : TargetDeviceManager)
    : Type 0 where
  pub all_taken : (k : ℕ) → m.next_devno ≤ k → k < last_devno → Mem (devno_text k) m.devno_blacklist
  pub error : e ≡ runtime_error "No more device numbers available."
  pub after : m' ≡ record m { next_devno = last_devno }

abbrev DevnoPost : TargetDeviceManager → Outcome Text → TargetDeviceManager → Type 0
DevnoPost m = Post (DevnoTaken m) (DevnosExhausted m)

abbrev advance : TargetDeviceManager → TargetDeviceManager
advance m = record m { next_devno = m.next_devno + 1 }

from_advance :
    (m : TargetDeviceManager) (P : ℕ → Type 0) (k : ℕ)
    → P m.next_devno
    → (m.next_devno + 1 ≤ k → P k)
    → m.next_devno ≤ k
    → P k
from_advance m P k here later h = elim (dec_le (m.next_devno + 1) k) [
  | yes above ↦ later above
  | no below ↦ let e : m.next_devno ≡ k = omega arith in subst P e here
]

advance_post :
    (m : TargetDeviceManager) (r : Outcome Text) (m' : TargetDeviceManager)
    → Mem (devno_text m.next_devno) m.devno_blacklist
    → DevnoPost (advance m) r m'
    → DevnoPost m r m'
advance_post m (returned d) m' t h = record {
  number = h.number;
  from_next = omega (arith, h.from_next);
  below_last = h.below_last;
  text = h.text;
  skipped_taken = λ k a b.
      from_advance m (λ j. Mem (devno_text j) m.devno_blacklist) k t (λ c. h.skipped_taken k c b) a;
  fresh = h.fresh;
  after = h.after;
}
advance_post m (raised e) m' t h = record {
  all_taken = λ k a b.
      from_advance m (λ j. Mem (devno_text j) m.devno_blacklist) k t (λ c. h.all_taken k c b) a;
  error = h.error;
  after = h.after;
}

-- A round of the loop takes one number, so one more round than there are numbers left is enough.
pick_devno_lem :
    (fuel : ℕ) (m : TargetDeviceManager)
    → m.next_devno ≤ last_devno
    → last_devno - m.next_devno < fuel
    → DevnoPost m (pick_devno fuel m).0 (pick_devno fuel m).1
unfolding pick_devno generate_devno ◌>>=◌
pick_devno_lem zero m b h = absurd (omega arith)
pick_devno_lem (suc fuel) m b h = elim (Bool-cases (m.next_devno == last_devno)) [
  | inl done ↦
      let e : m.next_devno ≡ last_devno = (==_iff m.next_devno last_devno).0 done in
      rw done (record {
        all_taken = λ k a c. absurd (omega arith);
        error = refl;
        after = λ i. record m { next_devno = e i };
      })
  | inr more ↦
      let below : m.next_devno < last_devno = ground arith in
      elim (Bool-cases (contains m.devno_blacklist (devno_text m.next_devno))) [
        | inl known ↦
            rw (more, known)
              (advance_post m (pick_devno fuel (advance m)).0 (pick_devno fuel (advance m)).1
                (contains→Mem m.devno_blacklist (devno_text m.next_devno) known)
                (pick_devno_lem fuel (advance m) (omega arith) (omega arith)))
        | inr new ↦
            rw (more, new)
              (record {
                number = m.next_devno;
                from_next = omega arith;
                below_last = below;
                text = refl;
                skipped_taken = λ k a c. absurd (omega arith);
                fresh = not-Mem m.devno_blacklist (devno_text m.next_devno) new;
                after = refl;
              })
      ]
]

pub get_valid_devno_lem :
    (m : TargetDeviceManager)
    → 0 < m.next_devno
    → m.next_devno ≤ last_devno
    → Post (DevnoTaken m) (DevnosExhausted m) (get_valid_devno m).0 (get_valid_devno m).1
unfolding get_valid_devno
get_valid_devno_lem m p b = pick_devno_lem last_devno m b (omega arith)
