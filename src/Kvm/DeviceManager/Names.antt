-- ===== src/Kvm/DeviceManager/Names.antt =====
-- `_valid_devs_generator` of target_device_manager.py: the names that it yields, in order.
use tessia_baselib.Prelude.{ℕ, zero, suc, ◌+◌, List, [], ◌∷◌, ◌++◌, Text, lit}

-- chr(c), …, chr(c + n - 1)
chars_from : ℕ → ℕ → List Text
chars_from c zero = []
chars_from c (suc n) = (c ∷ []) ∷ chars_from (c + 1) n

unfoldable pub letters : List Text
unfolding chars_from
letters = chars_from b'a' 26

unfoldable pub devname : Text → Text → Text → Text
devname i j k = lit "vd" ++ (i ++ (j ++ k))

-- for k in letters: yield …
names_k : Text → Text → List Text → List Text
names_k i j [] = []
names_k i j (k ∷ ks) = devname i j k ∷ names_k i j ks

-- for j in [''] + letters: …
names_j : Text → List Text → List Text
names_j i [] = []
names_j i (j ∷ js) = names_k i j letters ++ names_j i js

-- for i in [''] + letters: …
names_i : List Text → List Text
names_i [] = []
names_i (i ∷ is) = names_j i ([] ∷ letters) ++ names_i is

unfoldable pub valid_devs : List Text
unfolding names_i names_j names_k letters devname
valid_devs = names_i ([] ∷ letters)
