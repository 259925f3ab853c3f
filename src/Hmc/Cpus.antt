-- ===== src/Hmc/Cpus.antt =====
-- How many processors of each type a guest gets: HypervisorHmc._compute_cpus (hypervisors/hmc/hmc.py).
use tessia_baselib.Prelude.{
  ℕ, ◌+◌, ◌-◌, ◌≤◌, ◌<◌, inl, inr, Bool-cases, refl, ◌≡◌, ◌⊎◌, ltb, ◌==◌, ◌&&◌, ◌||◌, if◌then◌else◌,
  arith,
}
use tessia_baselib.Python.{runtime_error, Outcome, returned, raised}

-- Numbers of general purpose processors and of IFLs: what a CPC has, or what a guest is to get.
pub record Processors : Type 0 where
  pub cp : ℕ
  pub ifl : ℕ

unfoldable pub compute_cpus : ℕ → Processors → Processors → Outcome Processors
compute_cpus cpus_gen requested avail =
    if requested.cp == 0 && requested.ifl == 0
    then (if ltb (avail.ifl + avail.cp) cpus_gen
        then raised (
            runtime_error
              "Not enough CPUs available in CPC. Requested: {} CPUs. Available: {} CPs, {} IFLs.")
        else if ltb cpus_gen avail.ifl
        then returned (record { ifl = cpus_gen; cp = 0 })
        else returned (record { ifl = avail.ifl; cp = cpus_gen - avail.ifl }))
    else if ltb avail.cp requested.cp || ltb avail.ifl requested.ifl
    then raised (
        runtime_error
          "Not enough CPUs available in CPC. Requested: {} CPs, {} IFLs. Available: {} CPs, {} IFLs.")
    else returned requested

-- The CPC can give the processors.
pub record Fits (got avail : Processors) : Type 0 where
  pub cp_fits : got.cp ≤ avail.cp
  pub ifl_fits : got.ifl ≤ avail.ifl

-- What is asked for: a number of any type, or a number of each.
abbrev pub Serves : ℕ → Processors → Processors → Type 0
Serves cpus_gen requested got =
    ((requested.cp ≡ 0) × (requested.ifl ≡ 0) × (got.ifl + got.cp ≡ cpus_gen))
    ⊎ ((0 < requested.cp + requested.ifl) × (got.cp ≡ requested.cp) × (got.ifl ≡ requested.ifl))

abbrev pub Computed : ℕ → Processors → Processors → Outcome Processors → Type 0
Computed cpus_gen requested avail (returned got) =
    Fits got avail
    × Serves cpus_gen requested got
    × ((other : Processors)
        → Fits other avail
        → Serves cpus_gen requested other
        → other.ifl ≤ got.ifl)
Computed cpus_gen requested avail (raised e) =
    (other : Processors) → Fits other avail → Serves cpus_gen requested other → ⊥

-- _compute_cpus gives processors that the CPC has and that serve the request, as many IFLs among them
-- as any such choice has; it raises only when no choice of processors of the CPC serves the request.
pub compute_cpus_lem :
    (cpus_gen : ℕ) (requested avail : Processors)
    → Computed cpus_gen requested avail (compute_cpus cpus_gen requested avail)
unfolding compute_cpus
compute_cpus_lem cpus_gen requested avail =
    elim (Bool-cases (requested.cp == 0 && requested.ifl == 0)) [
      | inl any ↦ elim (Bool-cases (ltb (avail.ifl + avail.cp) cpus_gen)) [
        | inl short ↦ rw (any, short) (λ other f s. ground arith)
        | inr enough ↦ elim (Bool-cases (ltb cpus_gen avail.ifl)) [
          | inl few ↦
              rw (any, enough, few)
                (
                  ground arith,
                  inl (ground arith, ground arith, ground arith),
                  λ other f s. ground arith,
                )
          | inr many ↦
              rw (any, enough, many)
                (
                  ground arith,
                  inl (ground arith, ground arith, ground arith),
                  λ other f s. ground arith,
                )
        ]
      ]
      | inr typed ↦ elim (Bool-cases (ltb avail.cp requested.cp || ltb avail.ifl requested.ifl)) [
        | inl short ↦ rw (typed, short) (λ other f s. ground arith)
        | inr enough ↦
            rw (typed, enough)
              (ground arith, inr (ground arith, refl, refl), λ other f s. ground arith)
      ]
    ]
