-- ===== src/Kvm/DeviceManager/Format.antt =====
-- The formats of target_device_manager.py: "0x{:04x}" and the two regular expressions.
use tessia_baselib.Prelude.{
  ℕ, zero, suc, ◌+◌, ◌/◌, ◌%◌, Bool, true, false, ◌&&◌, ◌||◌, Option, none, some, [], ◌∷◌, ◌++◌,
  Text, lit, ltb, leb, ◌==◌, if◌then◌else◌, length,
}

unfoldable pub hex_digit : ℕ → ℕ
hex_digit d = if ltb d 10 then 48 + d else 87 + d

-- the digits above the last four, none for a number below 0x10000
high_digits : ℕ → ℕ → Text
high_digits zero n = []
high_digits (suc fuel) n =
    let rest = high_digits fuel (n / 16) ++ hex_digit (n % 16) ∷ [] in if n == 0 then [] else rest

low_digits : ℕ → Text
low_digits n =
    hex_digit (n / 4096 % 16)
    ∷ hex_digit (n / 256 % 16)
    ∷ hex_digit (n / 16 % 16)
    ∷ hex_digit (n % 16)
    ∷ []

-- "0x{:04x}".format(n)
unfoldable pub devno_text : ℕ → Text
unfolding hex_digit high_digits low_digits
devno_text n = lit "0x" ++ (high_digits (n / 65536) (n / 65536) ++ low_digits n)

unfoldable pub is_lower : ℕ → Bool
is_lower c = leb b'a' c && leb c b'z'

unfoldable pub is_hex : ℕ → Bool
is_hex c = leb b'0' c && leb c b'9' || leb b'a' c && leb c b'f'

all_chars : (ℕ → Bool) → Text → Bool
all_chars p [] = true
all_chars p (c ∷ cs) = p c && all_chars p cs

-- vd[a-z]{1,3}
unfoldable pub devname_shape : Text → Bool
unfolding all_chars is_lower
devname_shape (v ∷ d ∷ cs) =
    v == b'v' && (d == b'd' && (leb 1 (length cs) && (leb (length cs) 3 && all_chars is_lower cs)))
devname_shape _ = false

-- 0x[0-9a-f]{4}
unfoldable pub devno_shape : Text → Bool
unfolding all_chars is_hex
devno_shape (z ∷ x ∷ cs) = z == b'0' && (x == b'x' && (length cs == 4 && all_chars is_hex cs))
devno_shape _ = false

-- the text without a newline at its end
unfoldable pub chop_newline : Text → Option Text
chop_newline [] = none
chop_newline (c ∷ []) = if c == 10 then some [] else none
chop_newline (c ∷ d ∷ cs) = elim (chop_newline (d ∷ cs)) [ none ↦ none | some t ↦ some (c ∷ t) ]

-- `$` matches at the end, and before a newline at the end
unfoldable pub at_end : (Text → Bool) → Text → Bool
unfolding chop_newline
at_end shape t = shape t || elim (chop_newline t) [ none ↦ false | some u ↦ shape u ]

-- re.match("^vd[a-z]{1,3}$", t)
unfoldable pub is_devname : Text → Bool
unfolding at_end devname_shape
is_devname t = at_end devname_shape t

-- re.match('^0x[0-9a-f]{4}$', t)
unfoldable pub is_devno : Text → Bool
unfolding at_end devno_shape
is_devno t = at_end devno_shape t
