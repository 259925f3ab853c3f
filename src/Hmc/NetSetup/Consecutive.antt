-- ===== src/Hmc/NetSetup/Consecutive.antt =====
-- The channels that follow a single channel are the next two numbers.
use tessia_baselib.Prelude.{
  ℕ, zero, suc, ◌+◌, ◌*◌, ◌/◌, ◌%◌, ◌≡◌, refl, ap, ◌∙◌, ◌||◌, ◌≤◌, ◌<◌, arith, false, Option, none,
  some, [], ◌∷◌, ◌++◌, Text, ◌==◌,
}
use tessia_baselib.Python.{returned}
use tessia_baselib.Hmc.NetSetup.Channels.{
  has_char, hex_value, hex_step, hex_digits_value, from_hex, hex_char, hex_chars, hex_text,
  following, next_channels, channel_list,
}

hex_value-hex_char : (d : ℕ) → d < 16 → hex_value (hex_char d) ≡ some d
unfolding hex_value hex_char
hex_value-hex_char d h = ground arith

hex_digits_value-append :
    (n : Option ℕ) (t : Text) (c : ℕ)
    → hex_digits_value n (t ++ c ∷ []) ≡ hex_step (hex_digits_value n t) (hex_value c)
unfolding hex_digits_value
hex_digits_value-append n [] c = refl
hex_digits_value-append n (d ∷ t) c = hex_digits_value-append (hex_step n (hex_value d)) t c

hex_step-some :
    (n d : ℕ) (o p : Option ℕ) → o ≡ some n → p ≡ some d → hex_step o p ≡ some (n * 16 + d)
unfolding hex_step
hex_step-some n d o p h k = rw (h, k) refl

hex_chars-zero : (fuel : ℕ) → hex_chars fuel 0 ≡ []
unfolding hex_chars
hex_chars-zero zero = refl
hex_chars-zero (suc fuel) = refl

hex_chars-suc :
    (fuel n : ℕ)
    → 0 < n
    → hex_chars (suc fuel) n ≡ hex_chars fuel (n / 16) ++ hex_char (n % 16) ∷ []
unfolding hex_chars
hex_chars-suc fuel n p = ground arith

hex_digits_value-hex_chars :
    (fuel n : ℕ) → n ≤ fuel → hex_digits_value (some 0) (hex_chars fuel n) ≡ some n
unfolding hex_digits_value hex_chars
hex_digits_value-hex_chars zero n h = ap some (omega arith)
hex_digits_value-hex_chars (suc fuel) zero h =
    ap (hex_digits_value (some 0)) (hex_chars-zero (suc fuel))
hex_digits_value-hex_chars (suc fuel) (suc n) h =
    let before : hex_digits_value (some 0) (hex_chars fuel (suc n / 16)) ≡ some (suc n / 16) =
      hex_digits_value-hex_chars fuel (suc n / 16) (omega arith) in
    ap (hex_digits_value (some 0)) (hex_chars-suc fuel (suc n) (omega arith))
    ∙ hex_digits_value-append (some 0) (hex_chars fuel (suc n / 16)) (hex_char (suc n % 16))
    ∙ hex_step-some (suc n / 16) (suc n % 16) _ _ before
        (hex_value-hex_char (suc n % 16) (omega arith))
    ∙ ap some (omega arith)

hex_digits_value-none : (t : Text) → hex_digits_value none t ≡ none
unfolding hex_digits_value hex_step
hex_digits_value-none [] = refl
hex_digits_value-none (c ∷ t) = hex_digits_value-none t

-- A digit is not the second character of the prefix.
digit_no_prefix : (b d : ℕ) → hex_value b ≡ some d → ((b == b'x') || (b == b'X')) ≡ false
unfolding hex_value
digit_no_prefix b d h = ground arith

step_none : (n : Option ℕ) → hex_step n none ≡ none
unfolding hex_step
step_none none = refl
step_none (some n) = refl

-- The characters of a number are digits.
second_digit :
    (n m : ℕ) (b : ℕ) (cs : Text) (acc o : Option ℕ)
    → hex_value b ≡ o
    → hex_digits_value (hex_step acc o) cs ≡ some n
    → ((b == b'x') || (b == b'X')) ≡ false
second_digit n m b cs acc none e h =
    absurd (cc (ap (λ o. hex_digits_value o cs) (step_none acc), hex_digits_value-none cs, h))
second_digit n m b cs acc (some d) e h = digit_no_prefix b d e

from_hex-digits :
    (n : ℕ) (t : Text) → 0 < n → hex_digits_value (some 0) t ≡ some n → from_hex t ≡ some n
unfolding from_hex
from_hex-digits n [] p h = ground arith
from_hex-digits n (a ∷ []) p h = h
from_hex-digits n (a ∷ (b ∷ cs)) p h =
    let no_prefix : ((b == b'x') || (b == b'X')) ≡ false =
      second_digit n n b cs (hex_step (some 0) (hex_value a)) (hex_value b) refl h in
    ground arith

-- What `hex` writes, `int` reads.
from_hex-hex_text : (n : ℕ) → 0 < n → from_hex (hex_text n) ≡ some n
unfolding hex_text
from_hex-hex_text n p =
    from_hex-digits n (hex_chars n n) p (hex_digits_value-hex_chars n n (omega arith))

next_channels-some :
    (device : Text) (n : ℕ)
    → from_hex device ≡ some n
    → next_channels device ≡ returned (device ∷ (hex_text (n + 1) ∷ (hex_text (n + 2) ∷ [])))
unfolding next_channels
next_channels-some device n k = ap (following device) k

-- For a device without a comma whose text is the hexadecimal number n, the list of channels is the
-- device and two texts that are read back as n + 1 and n + 2.
pub channel_list-consecutive :
    (device : Text) (n : ℕ)
    → has_char b',' device ≡ false
    → from_hex device ≡ some n
    → (b : Text) × (c : Text) × (channel_list device ≡ returned (device ∷ (b ∷ (c ∷ []))))
      × (from_hex b ≡ some (n + 1))
      × (from_hex c ≡ some (n + 2))
unfolding channel_list
channel_list-consecutive device n h k = (
  hex_text (n + 1),
  hex_text (n + 2),
  rw (h, next_channels-some device n k) refl,
  from_hex-hex_text (n + 1) (omega arith),
  from_hex-hex_text (n + 2) (omega arith),
)
