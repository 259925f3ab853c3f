-- ===== src/Hmc/NetSetup/Channels.antt =====
-- The three channels of an OSA card: `ch_list` in _prepare_setup_network_cmds
-- (hypervisors/hmc/hmc.py), with int(…, 16) and hex of the language.
use tessia_baselib.Prelude.{
  ℕ, zero, suc, ◌+◌, ◌-◌, ◌*◌, ◌/◌, ◌%◌, ◌==◌, ltb, leb, Bool, false, ◌&&◌, ◌||◌, Option, none,
  some, List, [], ◌∷◌, ◌++◌, Text, split_on, if◌then◌else◌,
}
use tessia_baselib.Python.{value_error, Outcome, returned, raised}

unfoldable pub has_char : ℕ → Text → Bool
has_char d [] = false
has_char d (c ∷ cs) = (c == d) || has_char d cs

unfoldable pub hex_value : ℕ → Option ℕ
hex_value c =
    if leb b'0' c && leb c b'9'
    then some (c - 48)
    else if leb b'a' c && leb c b'f'
    then some (c - 87)
    else if leb b'A' c && leb c b'F'
    then some (c - 55)
    else none

unfoldable pub hex_step : Option ℕ → Option ℕ → Option ℕ
hex_step (some n) (some d) = some (n * 16 + d)
hex_step _ _ = none

-- the digits after those that are worth `n`
unfoldable pub hex_digits_value : Option ℕ → Text → Option ℕ
hex_digits_value n [] = n
hex_digits_value n (c ∷ cs) = hex_digits_value (hex_step n (hex_value c)) cs

digits_only : Text → Option ℕ
digits_only [] = none
digits_only (c ∷ cs) = hex_digits_value (some 0) (c ∷ cs)

-- int(t, 16), of a text without sign, blanks and underscores
unfoldable pub from_hex : Text → Option ℕ
unfolding digits_only hex_digits_value hex_step hex_value
from_hex (a ∷ (b ∷ cs)) =
    if (a == b'0') && ((b == b'x') || (b == b'X'))
    then digits_only cs
    else digits_only (a ∷ (b ∷ cs))
from_hex cs = digits_only cs

unfoldable pub hex_char : ℕ → ℕ
hex_char d = if ltb d 10 then 48 + d else 87 + d

unfoldable pub hex_chars : ℕ → ℕ → Text
unfolding hex_char
hex_chars zero n = []
hex_chars (suc fuel) n =
    let rest = hex_chars fuel (n / 16) ++ hex_char (n % 16) ∷ [] in if n == 0 then [] else rest

-- hex(n).lstrip("0x"): no digit is left of zero
unfoldable pub hex_text : ℕ → Text
unfolding hex_chars
hex_text n = hex_chars n n

abbrev pub following : Text → Option ℕ → Outcome (List Text)
following channel none = raised (value_error "invalid literal for int() with base 16")
following channel (some n) = returned (channel ∷ (hex_text (n + 1) ∷ (hex_text (n + 2) ∷ [])))

unfoldable pub next_channels : Text → Outcome (List Text)
next_channels channel = following channel (from_hex channel)

unfoldable pub channel_list : Text → Outcome (List Text)
unfolding has_char next_channels
channel_list device =
    if has_char b',' device then returned (split_on b',' device) else next_channels device
