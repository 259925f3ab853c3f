-- ===== src/Kvm/DeviceManager/Tests.antt =====
-- Runs of the device manager on small inputs, and the theorems about it at concrete inputs.
use tessia_baselib.Prelude.{
  ◌≡◌, refl, ◌⊎◌, some, List, [], ◌∷◌, Mem, Nodup, length, Text, lit, text_eq, contains, true,
}
use tessia_baselib.Python.{returned, raised, runtime_error, ◌>>=◌}
use tessia_baselib.Python.Rules.{Post}
use tessia_baselib.Kvm.DeviceManager.{
  XmlAttributes, init, get_valid_dev, get_valid_devno, pick_devno, generate_devno,
  update_dev_blacklist, update_devno_blacklist, only_attribute,
}
use tessia_baselib.Kvm.DeviceManager.Format.{devno_text, is_devname, is_devno}
use tessia_baselib.Kvm.DeviceManager.Names.{valid_devs}
use tessia_baselib.Kvm.DeviceManager.Contract.{DevTaken, DevsExhausted, get_valid_dev_lem}
use tessia_baselib.Kvm.DeviceManager.Given.{DevGiven, DevRefused, update_dev_blacklist_lem}
use tessia_baselib.Kvm.DeviceManager.History.{
  Call, next_dev, next_devno, given_dev, given_devno, run_calls, dev_answers, devno_answers,
  answers_distinct, dev_or_none_left,
}

devno_feba : devno_text 0xfeba ≡ lit "0xfeba"
unfolding devno_text lit
devno_feba = refl

devno_padded : devno_text 26 ≡ lit "0x001a"
unfolding devno_text lit
devno_padded = refl

-- The generator yields the two-letter names twice: 26 + 2 * 26 * 26 + 26 * 26 * 26.
length-valid_devs : length valid_devs ≡ 18954
unfolding valid_devs
length-valid_devs = refl

-- `$` accepts a newline at the end.
newline_accepted : is_devname (lit "vda\n") ≡ true
unfolding is_devname lit
newline_accepted = refl

abbrev echo : XmlAttributes
echo = record { targets = λ t. returned (some t ∷ []); addresses = λ t. returned (some t ∷ []) }

abbrev calls : List Call
calls = given_dev (lit "vda") ∷ next_dev ∷ next_devno ∷ given_devno (lit "0x0001") ∷ next_devno ∷ []

dev_answers_run : dev_answers echo calls init ≡ lit "vda" ∷ lit "vdb" ∷ []
unfolding dev_answers init lit valid_devs ◌>>=◌ text_eq contains get_valid_dev get_valid_devno
    pick_devno generate_devno devno_text update_dev_blacklist update_devno_blacklist only_attribute
    is_devno is_devname
dev_answers_run = refl

answers_distinct_example :
    Nodup (dev_answers echo calls init) × Nodup (devno_answers echo calls init)
answers_distinct_example = answers_distinct echo calls

get_valid_dev_lem_example :
    Post
      (DevTaken init init.generate_devname)
      (DevsExhausted init init.generate_devname)
      (get_valid_dev init).0
      (get_valid_dev init).1
get_valid_dev_lem_example = get_valid_dev_lem init

update_dev_blacklist_lem_example :
    Post
      (DevGiven echo (lit "vda") init)
      (DevRefused echo (lit "vda") init)
      (update_dev_blacklist echo (lit "vda") init).0
      (update_dev_blacklist echo (lit "vda") init).1
update_dev_blacklist_lem_example = update_dev_blacklist_lem echo (lit "vda") init

dev_or_none_left_example :
    let m = run_calls echo calls init in
    ((d : Text) × ((get_valid_dev m).0 ≡ returned d) × (¬ Mem d m.dev_blacklist))
    ⊎ (((get_valid_dev m).0 ≡ raised (runtime_error "Out of valid devices"))
        × ((t : Text) → Mem t valid_devs → Mem t m.dev_blacklist))
dev_or_none_left_example = dev_or_none_left echo calls
