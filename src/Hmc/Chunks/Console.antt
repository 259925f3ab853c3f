-- ===== src/Hmc/Chunks/Console.antt =====
-- What a console makes of the lines that are sent to it: an independent description of the shell that
-- reads them, and what the chunks of a command come to there.
use tessia_baselib.Prelude.{
  ℕ, zero, suc, ◌≤◌, ◌≡◌, ◌≢◌, false, Bool-cases, inl, inr, List, [], ◌∷◌, ◌++◌, Text, lit, text_eq,
  length, ltb, drop, length-take-le, remove_char, All, All-append, arith, if◌then◌else◌,
}
use tessia_baselib.Hmc.Chunks.{
  chunk_size, save_line, end_line, source_line, slices, string_to_chunks,
}

-- The shell waits for a command, or `tr` reads lines up to the end of its input.
pub data Mode : Type 0 where
  prompt : Mode
  reading : Text → Mode

pub record Console : Type 0 where
  pub mode : Mode
  -- what /tmp/command holds
  pub file : Text
  -- the commands that the shell has executed, the last one first
  pub executed : List Text

enter_mode : Mode → Text → Console → Console
enter_mode (reading saved) line c =
    if text_eq line end_line
    then record c { mode = prompt; file = saved }
    else record c { mode = reading (saved ++ remove_char 10 line) }
enter_mode prompt line c =
    if text_eq line save_line
    then record c { mode = reading [] }
    else if text_eq line source_line
    then record c { executed = c.file ∷ c.executed }
    else record c { executed = line ∷ c.executed }

-- One line arrives.
unfoldable pub enter : Text → Console → Console
unfolding enter_mode
enter line c = enter_mode c.mode line c

unfoldable pub enter_all : List Text → Console → Console
unfolding enter
enter_all [] c = c
enter_all (l ∷ ls) c = enter_all ls (enter l c)

-- A command of one line in which no ^ stands, and that is not one of the two lines that the driver adds.
pub record IsPlain (t : Text) : Type 0 where
  pub chars : All (λ c. (c ≢ 10) × (c ≢ 94)) t
  pub not_save : text_eq t save_line ≡ false
  pub not_source : text_eq t source_line ≡ false

abbrev NoBreak : ℕ → Type 0
NoBreak c = (c ≢ 10) × (c ≢ 94)

slices_bounds : (fuel : ℕ) (t : Text) → All (λ l. length l ≤ chunk_size) (slices fuel t)
unfolding slices
slices_bounds zero t = tt
slices_bounds (suc fuel) [] = tt
slices_bounds (suc fuel) (c ∷ cs) =
    (length-take-le chunk_size (c ∷ cs), slices_bounds fuel (drop chunk_size (c ∷ cs)))

-- Every chunk has 200 characters at most, as many as the interface of the console takes.
pub string_to_chunks_bounds : (t : Text) → All (λ l. length l ≤ 200) (string_to_chunks t)
unfolding string_to_chunks lit
string_to_chunks_bounds t = elim (Bool-cases (ltb (length t) chunk_size)) [
  | inl short ↦ rw short (ground arith, tt)
  | inr long ↦ rw long (
    omega arith,
    All-append (λ l. length l ≤ chunk_size) (slices (length t) t) (end_line ∷ (source_line ∷ []))
        (slices_bounds (length t) t) (omega arith),
  )
]
