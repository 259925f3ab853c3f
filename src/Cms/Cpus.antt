-- ===== src/Cms/Cpus.antt =====
-- Which CPUs _attach_cpu defines (guests/cms/cms.py).
use tessia_baselib.Prelude.{
  ℕ, zero, suc, ◌+◌, ◌==◌, ◌≡◌, ◌≢◌, refl, sym, ap, subst, ◌∙◌, ltb, leb, false, Bool-cases, inl,
  inr, not, ◌&&◌, Option, none, some, List, [], ◌∷◌, ◌++◌, Text, String, lit, text_eq, split_on,
  arith, if◌then◌else◌,
}
use tessia_baselib.Python.{
  Error, value_error, out_of_fuel, returned, raised, pure, lift, option_case,
}
use tessia_baselib.Python.Rules.{
  Triple, Triple-pure, Triple-if, Triple-bind, Triple-call, Triple-lift, Triple-strengthen,
  Triple-weaken,
}
use tessia_baselib.Hmc.NetSetup.Channels.{from_hex, hex_text}
use tessia_baselib.Cms.LastCpu.{IsLast, found-IsLast, last_cpu-Searched}
use tessia_baselib.Cms.{
  Terminal, Match, error_regex, attach_msg, cpu_msg, expect, last_cpu, cpu_number, define_cpu,
  define_cpus, attach_cpu,
}

module _ (t : Terminal) (name : Text) where
  -- From `start`, the `count` addresses from `first` on were defined, in order, and nothing else was sent:
  -- each definition was answered, and not by an error.
  pub data Defined (first : ℕ) (start : t.World) : ℕ → t.World → Type 0 where
    none_yet : Defined first start 0 start
    one_more :
        {count : ℕ} {w w' : t.World} {output : Text} {m : Match}
        → Defined first start count w
        → t.send_cmd
            (lit "define cpu " ++ hex_text (first + count))
            (attach_msg ∷ (error_regex ∷ []))
            w
          ≡ (returned (output, some m), w')
        → text_eq m.pattern error_regex ≡ false
        → Defined first start (suc count) w'

  abbrev pub NotFuel : Error → t.World → Type 0
  NotFuel e w = e ≢ out_of_fuel

  expect-NotFuel :
      (u f : String) (o : Option Match) (x : Error) (w : t.World)
      → expect u f o ≡ raised x
      → NotFuel x w
  unfolding expect
  expect-NotFuel u f none x w h e = ground (arith, h, e)
  expect-NotFuel u f (some m) x w h e = ground (arith, h, e)

  number_error :
      (o : Option ℕ) (x : Error) (w : t.World)
      → option_case o (raised (value_error "invalid literal for int() with base 16")) returned
        ≡ raised x
      → NotFuel x w
  number_error none x w h e = ground (arith, h, e)
  number_error (some n) x w h e = ground (arith, h, e)

  cpu_number-NotFuel :
      (o : Option Text) (x : Error) (w : t.World) → cpu_number t name o ≡ raised x → NotFuel x w
  unfolding cpu_number
  cpu_number-NotFuel none x w h e = ground (arith, h, e)
  cpu_number-NotFuel (some u) x w h e = number_error (from_hex u) x w h e

  -- the terminal raises errors of its own, not that of the model
  module _
      (own : (cmd : Text) (ps : List Text) (w : t.World)
        → (t.send_cmd cmd ps w).0 ≢ raised out_of_fuel) where
    sends :
        {P : t.World → Type 0} (cmd : Text) (ps : List Text)
        → Triple P
            (t.send_cmd cmd ps)
            (λ a w'. (w : t.World) × P w × (t.send_cmd cmd ps w ≡ (returned a, w')))
            NotFuel
    sends cmd ps =
        Triple-call (t.send_cmd cmd ps) λ e w w' k h f. own cmd ps w (ap (λ x. x.0) h ∙ ap raised f)

    define_cpu-Defined :
        (first : ℕ) (start : t.World) (count : ℕ)
        → Triple
            (Defined first start count)
            (define_cpu t name (first + count))
            (λ m. Defined first start (suc count))
            NotFuel
    unfolding define_cpu expect lift
    define_cpu-Defined first start count =
        Triple-bind _ _ (sends _ _) λ answer. taken answer.0 answer.1
      where
        taken :
            (output : Text) (o : Option Match)
            → Triple
                (λ w'.
                  (w : t.World) × Defined first start count w
                  × (t.send_cmd
                        (lit "define cpu " ++ hex_text (first + count))
                        (attach_msg ∷ (error_regex ∷ []))
                        w
                      ≡ (returned (output, o), w')))
                (lift (
                  expect "Define CPU(s) returned unexpected output" "Define CPU(s) failed with: {}"
                    o))
                (λ m. Defined first start (suc count))
                NotFuel
        taken output none = record { at = λ w k f. cc f }
        taken output (some m) = elim (Bool-cases (text_eq m.pattern error_regex)) [
          | inl y ↦ record { at = λ w k. rw y (λ f. cc f) }
          | inr n ↦ record { at = λ w k. rw n (one_more k.1 k.2 n) }
        ]

    define_cpus-Defined :
        (first : ℕ) (start : t.World) (cpus last fuel count addr : ℕ)
        → (cpus == 0) ≡ false
        → first + (count + fuel) ≡ last + 1
        → first + count ≡ addr
        → Triple
            (Defined first start count)
            (define_cpus t name (suc fuel) addr last cpus)
            (λ u. Defined first start (count + fuel))
            NotFuel
    unfolding define_cpus
    define_cpus-Defined first start cpus last zero count addr c l a =
        Triple-if (leb addr last && not (cpus == 0)) _ (pure tt)
          (λ y. absurd (ground (arith, l, a, y)))
          (λ n. Triple-pure tt λ w k. subst (λ x. Defined first start x w) (omega arith) k)
    define_cpus-Defined first start cpus last (suc fuel) count addr c l a =
        Triple-if (leb addr last && not (cpus == 0)) _ (pure tt)
          (λ y.
            Triple-bind _ _
              (subst
                (λ x.
                  Triple (Defined first start count) (define_cpu t name x)
                    (λ m. Defined first start (suc count)) NotFuel)
                a (define_cpu-Defined first start count))
              λ m.
                Triple-weaken _
                  (define_cpus-Defined first start cpus last fuel (suc count) (addr + 1) c
                    (omega arith) (omega arith))
                  λ u w k. subst (λ x. Defined first start x w) (omega arith) k)
          (λ n. absurd (ground (arith, l, a, n, c)))

    -- the answer to the query, and the world after it
    abbrev pub Asked : Text → t.World → Type 0
    Asked output after =
        (before : t.World) × (o : Option Match) × (t.send_cmd (lit "q v cpus")
            (error_regex ∷ (cpu_msg ∷ [])) before
          ≡ (returned (output, o), after))

    -- For one cpu or more, on a terminal that does not raise the error of the model, _attach_cpu
    -- uses no more rounds than it has. When it returns, `last` is the hexadecimal number in the last line
    -- of the answer to the query that names a CPU, and from then on as many CPUs were defined as were
    -- asked for, with the addresses that follow it, in order; each definition was answered, and not by an error.
    pub attach_cpu-Defined :
        (cpus : ℕ)
        → Triple
            (λ w. Unit)
            (attach_cpu t name (suc cpus))
            (λ u w.
              (last : ℕ) × (output : Text) × (start : t.World) × Asked output start
              × IsLast t name last output
              × Defined (last + 1) start (suc cpus) w)
            NotFuel
    unfolding attach_cpu
    attach_cpu-Defined cpus =
        Triple-bind _ _ (sends (lit "q v cpus") (error_regex ∷ (cpu_msg ∷ []))) λ answer.
          Triple-lift
            (expect "Query CPUs returned unexpected output" "Query CPUs failed with: {}" answer.1) _
            (λ m e.
              Triple-lift (cpu_number t name (last_cpu t name (split_on 10 answer.0) none)) _
                (λ last h. record {
                  at = λ w k.
                      (Triple-weaken _
                          (Triple-strengthen _
                            (define_cpus-Defined (last + 1) w (suc cpus)
                              (if ltb 1 (suc cpus) then last + suc cpus else last + 1) (suc cpus) 0
                              (last + 1) (ground arith) (ground arith) (omega arith))
                            λ w' e. subst (Defined (last + 1) w 0) (sym e) none_yet)
                          λ u w' d. (
                            last,
                            answer.0,
                            w,
                            (k.0, answer.1, k.2),
                            found-IsLast t name last answer.0 _ h
                                (last_cpu-Searched t name (split_on 10 answer.0) none),
                            subst (λ x. Defined (last + 1) w x w') (omega arith) d,
                          )).at
                        w refl;
                })
                (λ x w h k. cpu_number-NotFuel (last_cpu t name (split_on 10 answer.0) none) x w h))
            (λ x w h k. expect-NotFuel _ _ answer.1 x w h)
