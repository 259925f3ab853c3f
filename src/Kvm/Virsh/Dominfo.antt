-- ===== src/Kvm/Virsh/Dominfo.antt =====
-- The dictionary that get_dominfo builds from the lines of `virsh dominfo` (kvm/virsh.py).
use tessia_baselib.Prelude.{
  ◌==◌, Bool, false, Option, none, some, List, [], ◌∷◌, Text, lit, text_eq, strip, lstrip,
  if◌then◌else◌,
}

-- `dominfo`, later entries first
abbrev pub Info : Type 0
Info = List (Text × Text)

-- str.split("\n")
unfoldable pub lines : Text → List Text
lines [] = [] ∷ []
lines (c ∷ cs) =
    let rest = lines cs in
    if c == 10 then [] ∷ rest else elim rest [ [] ↦ (c ∷ []) ∷ [] | l ∷ ls ↦ (c ∷ l) ∷ ls ]

-- str.partition(":"), without its middle part
unfoldable pub partition : Text → Text × Text
partition [] = ([], [])
partition (c ∷ cs) =
    let (key, value) = partition cs in if c == 58 then ([], cs) else (c ∷ key, value)

unfoldable pub add_lines : List Text → Info → Info
unfolding partition
add_lines [] info = info
add_lines (l ∷ ls) info =
    let (key, value) = partition l in add_lines ls ((key, lstrip value) ∷ info)

unfoldable pub parse_dominfo : Text → Info
unfolding lines add_lines
parse_dominfo output = add_lines (lines (strip output)) []

unfoldable pub value_of : Info → Text → Option Text
value_of [] k = none
value_of ((j, v) ∷ info) k = if text_eq j k then some v else value_of info k

-- `dominfo.get("State") == state`
unfoldable pub state_of : Info → Text → Bool
unfolding value_of
state_of info state = elim (value_of info (lit "State")) [ none ↦ false | some v ↦ text_eq v state ]
