-- ===== src/Cms/LastCpu.antt =====
-- Which CPU _attach_cpu takes for the last one (guests/cms/cms.py).
use tessia_baselib.Prelude.{
  ℕ, ◌≡◌, ◌⊎◌, All, refl, ap, subst, ◌∙◌, inl, inr, Option, none, some, List, [], ◌∷◌, ◌++◌, Text,
  split_on, arith,
}
use tessia_baselib.Python.{value_error, returned, raised, option_case}
use tessia_baselib.Hmc.NetSetup.Channels.{from_hex}
use tessia_baselib.Cms.{Terminal, last_cpu, cpu_number}

module _ (t : Terminal) (name : Text) where
  -- The last of the lines that names a CPU.
  pub record LastLine (lines : List Text) (number : Text) : Type 0 where
    pub before : List Text
    pub line : Text
    pub after : List Text
    pub split : lines ≡ before ++ line ∷ after
    pub names : t.cpu_of line ≡ some number
    pub none_after : All (λ l. t.cpu_of l ≡ none) after

  one_before :
      (l : Text) (ls : List Text) (number : Text) → LastLine ls number → LastLine (l ∷ ls) number
  one_before l ls number k = record {
    before = l ∷ k.before;
    line = k.line;
    after = k.after;
    split = ap (λ x. l ∷ x) k.split;
    names = k.names;
    none_after = k.none_after;
  }

  -- what the lines make of the number found before them
  abbrev pub Searched : List Text → Option Text → Option Text → Type 0
  Searched ls found o =
      ((o ≡ found) × All (λ l. t.cpu_of l ≡ none) ls)
      ⊎ ((number : Text) × (o ≡ some number) × LastLine ls number)

  search_on :
      (l : Text) (ls : List Text) (found c o : Option Text)
      → t.cpu_of l ≡ c
      → Searched ls (option_case c found some) o
      → Searched (l ∷ ls) found o
  search_on l ls found c o e (inr (number, h, k)) = inr (number, h, one_before l ls number k)
  search_on l ls found none o e (inl k) = inl (k.0, (e, k.1))
  search_on l ls found (some number) o e (inl k) = inr (
    number,
    k.0,
    record { before = []; line = l; after = ls; split = refl; names = e; none_after = k.1 },
  )

  pub last_cpu-Searched :
      (ls : List Text) (found : Option Text) → Searched ls found (last_cpu t name ls found)
  unfolding last_cpu
  last_cpu-Searched [] found = inl (refl, tt)
  last_cpu-Searched (l ∷ ls) found =
      search_on l ls found (t.cpu_of l) _ refl
        (last_cpu-Searched ls (option_case (t.cpu_of l) found some))

  -- The last line of a text that names a CPU, whose number it is in hexadecimal.
  pub record IsLast (last : ℕ) (output : Text) : Type 0 where
    pub before : List Text
    pub line : Text
    pub after : List Text
    pub number : Text
    pub lines : split_on 10 output ≡ before ++ line ∷ after
    pub names : t.cpu_of line ≡ some number
    pub none_after : All (λ l. t.cpu_of l ≡ none) after
    pub value : from_hex number ≡ some last

  number_value :
      (u : Text) (o : Option ℕ) (last : ℕ)
      → from_hex u ≡ o
      → option_case o (raised (value_error "invalid literal for int() with base 16")) returned
        ≡ returned last
      → from_hex u ≡ some last
  number_value u none last e h = absurd (ground (arith, h))
  number_value u (some n) last e h = e ∙ ground (arith, h)

  pub found-IsLast :
      (last : ℕ) (output : Text) (o : Option Text)
      → cpu_number t name o ≡ returned last
      → Searched (split_on 10 output) none o
      → IsLast last output
  unfolding cpu_number
  found-IsLast last output none h (inl k) = absurd (ground (arith, h))
  found-IsLast last output none h (inr k) = absurd (cc (k.1))
  found-IsLast last output (some u) h (inl k) = absurd (cc (k.0))
  found-IsLast last output (some u) h (inr (number, e, k)) = record {
    before = k.before;
    line = k.line;
    after = k.after;
    number = number;
    lines = k.split;
    names = k.names;
    none_after = k.none_after;
    value =
        number_value number (from_hex number) last refl
          (subst (λ x. cpu_number t name x ≡ returned last) e h);
  }
