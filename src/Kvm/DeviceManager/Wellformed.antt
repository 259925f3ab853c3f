-- ===== src/Kvm/DeviceManager/Wellformed.antt =====
-- What the generators of target_device_manager.py make is what its regular expressions accept.
use tessia_baselib.Prelude.{
  ℕ, ◌/◌, ◌%◌, ◌<◌, ◌≡◌, refl, Bool, true, ◌&&◌, List, [], ◌∷◌, Text, lit, arith, All,
}
use tessia_baselib.Kvm.DeviceManager.Format.{hex_digit, devno_text, is_devname, is_devno, is_hex}
use tessia_baselib.Kvm.DeviceManager.Names.{valid_devs}

is_hex-hex_digit : (d : ℕ) → is_hex (hex_digit (d % 16)) ≡ true
unfolding is_hex hex_digit
is_hex-hex_digit d = ground arith

-- Every number below 0x10000 is formatted as a device number that the check on xml accepts.
pub is_devno-devno_text : (n : ℕ) → n < 65536 → is_devno (devno_text n) ≡ true
unfolding is_devno devno_text lit
is_devno-devno_text n h =
    let small : n / 65536 ≡ 0 = omega arith in
    rw small (
      rw (
        is_hex-hex_digit (n / 4096),
        is_hex-hex_digit (n / 256),
        is_hex-hex_digit (n / 16),
        is_hex-hex_digit n,
      ))

every : (Text → Bool) → List Text → Bool
every p [] = true
every p (t ∷ ts) = p t && every p ts

every-All : (p : Text → Bool) (ts : List Text) → every p ts ≡ true → All (λ t. p t ≡ true) ts
unfolding every
every-All p [] h = tt
every-All p (t ∷ ts) h = (ground arith, every-All p ts (ground arith))

valid_devs_checked : every is_devname valid_devs ≡ true
unfolding every is_devname valid_devs lit
valid_devs_checked = refl

-- Every name that the generator yields is one that the check on xml accepts.
pub is_devname-valid_devs : All (λ t. is_devname t ≡ true) valid_devs
is_devname-valid_devs = every-All is_devname valid_devs valid_devs_checked
