-- ===== src/Ssh/Shell/Extract.antt =====
-- Taking the answer of a command out of what the terminal shows (common/ssh/shell.py).
use tessia_baselib.Prelude.{
  ℕ, ◌==◌, ◌≡◌, ◌≢◌, refl, sym, ap, ◌∙◌, true, Bool-cases, inl, inr, some, [], ◌∷◌, ◌++◌, Text,
  text_eq_refl, ==_iff, length, starts_with, drop, All, arith, if◌then◌else◌,
}
use tessia_baselib.Python.{option_case}
use tessia_baselib.Ssh.Shell.{cut, unix_lines, remove_echo, clean}

-- How a terminal shows lines: a carriage return before each newline.
unfoldable pub terminal_lines : Text → Text
terminal_lines [] = []
terminal_lines (c ∷ cs) = if c == 10 then 13 ∷ (10 ∷ terminal_lines cs) else c ∷ terminal_lines cs

abbrev pub NoReturn : Text → Type 0
NoReturn t = All (λ c. c ≢ 13) t

-- a character that is not a carriage return stays
unix_lines_other : (c : ℕ) (t : Text) → c ≢ 13 → unix_lines (c ∷ t) ≡ c ∷ unix_lines t
unfolding unix_lines
unix_lines_other c [] h = refl
unix_lines_other c (d ∷ t) h = ground arith

newline : (c : ℕ) (cs : Text) → (c == 10) ≡ true → 10 ∷ cs ≡ c ∷ cs
newline c cs h = ap (λ d. d ∷ cs) (sym ((==_iff c 10).0 h))

unix_lines-terminal_lines : (t : Text) → NoReturn t → unix_lines (terminal_lines t) ≡ t
unfolding terminal_lines unix_lines
unix_lines-terminal_lines [] h = refl
unix_lines-terminal_lines (c ∷ cs) h = elim (Bool-cases (c == 10)) [
  | inl y ↦ rw y (ap (λ t. 10 ∷ t) (unix_lines-terminal_lines cs h.1) ∙ newline c cs y)
  | inr n ↦ rw n (
      unix_lines_other c (terminal_lines cs) h.0
      ∙ ap (λ t. c ∷ t) (unix_lines-terminal_lines cs h.1))
]

starts_with_own : (p t : Text) → starts_with (p ++ t) p ≡ true
unfolding starts_with
starts_with_own [] [] = refl
starts_with_own [] (c ∷ cs) = refl
starts_with_own (c ∷ cs) t = ground (arith, starts_with_own cs t)

drop_own : (p t : Text) → drop (length p) (p ++ t) ≡ t
unfolding drop
drop_own [] t = refl
drop_own (c ∷ cs) t = drop_own cs t

cut_own : (p t : Text) → cut p (p ++ t) ≡ some ([], t)
unfolding cut
cut_own [] [] = rw (text_eq_refl []) refl
cut_own [] (c ∷ cs) = ap (λ t. some ([], t)) (drop_own [] (c ∷ cs))
cut_own (d ∷ ds) t = rw (starts_with_own (d ∷ ds) t) (ap (λ r. some ([], r)) (drop_own (d ∷ ds) t))

-- The answer of a command is what is left of what the terminal shows for the echo of the command and
-- the answer, where neither holds a carriage return.
pub clean-terminal_lines :
    (echo answer : Text)
    → NoReturn (echo ++ answer)
    → clean (some echo) (terminal_lines (echo ++ answer)) ≡ answer
unfolding clean remove_echo
clean-terminal_lines echo answer h =
    ap (λ t. option_case (cut echo t) t (λ r. r.1)) (unix_lines-terminal_lines (echo ++ answer) h)
    ∙ ap (λ o. option_case o (echo ++ answer) (λ r. r.1)) (cut_own echo answer)
