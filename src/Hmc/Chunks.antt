-- ===== src/Hmc/Chunks.antt =====
-- How a command is sent over the OS messages interface, which takes 200 characters a call:
-- `_string_to_chunks` in HypervisorHmc._send_commands (hypervisors/hmc/hmc.py).
pub mod Console
use tessia_baselib.Prelude.{
  ℕ, zero, suc, List, [], ◌∷◌, ◌++◌, Text, lit, length, ltb, take, drop, if◌then◌else◌,
}

abbrev pub chunk_size : ℕ
chunk_size = 200

-- "tr -d '\\n' > /tmp/command"
abbrev pub save_line : Text
save_line = lit "tr -d '\\n' > /tmp/command"

abbrev pub end_line : Text
end_line = lit "^D"

abbrev pub source_line : Text
source_line = lit ". /tmp/command"

-- the slices of `range(0, len(string), size)`, at most `fuel` of them
unfoldable pub slices : ℕ → Text → List Text
slices zero t = []
slices (suc fuel) [] = []
slices (suc fuel) (c ∷ cs) = take chunk_size (c ∷ cs) ∷ slices fuel (drop chunk_size (c ∷ cs))

unfoldable pub string_to_chunks : Text → List Text
unfolding slices
string_to_chunks t =
    if ltb (length t) chunk_size
    then t ∷ []
    else save_line ∷ (slices (length t) t ++ (end_line ∷ (source_line ∷ [])))
