-- ===== src/Kvm/Virsh/Shutdown.antt =====
-- Shutting a domain down ends in time, with the domain shut off or destroyed (kvm/virsh.py).
use tessia_baselib.Prelude.{
  ℕ, zero, suc, ◌+◌, ◌*◌, ◌/◌, ◌<◌, ◌≡◌, ◌⊎◌, inl, inr, true, ◌++◌, Text, lit, ltb, arith,
}
use tessia_baselib.Python.{pure, modify}
use tessia_baselib.Python.Rules.{
  Triple, Triple-pure, Triple-if, Triple-bind, Triple-gets, Triple-strengthen, Triple-weaken,
}
use tessia_baselib.Linux.Host.{Host}
use tessia_baselib.Kvm.Virsh.{Services, State, destroy, wait_shut_off, shutdown}
use tessia_baselib.Kvm.Virsh.Dominfo.{parse_dominfo, state_of}
use tessia_baselib.Kvm.Virsh.Ran.{
  NotFuel, ClockRuns, Since, Ran, Triple-except, get_dominfo-Ran, virsh_command-Ran,
}

ltb-true : (a b : ℕ) → ltb a b ≡ true → a < b
ltb-true a b e = ground arith

module _ (h : Host) (services : Services h) (clock : ClockRuns services) where
  -- The last command run told that the domain is shut off, or destroyed it.
  pub IsDown : Text → State h → Type 0
  IsDown d s =
      ((out : Text) × Ran h services clock (lit "virsh dominfo " ++ d) (0, out) s
        × (state_of (parse_dominfo out) (lit "shut off") ≡ true))
      ⊎ ((out : Text) × Ran h services clock (lit "virsh " ++ (lit "destroy" ++ (lit " " ++ d)))
            (0, out) s)

  destroy-IsDown :
      (d : Text) → Triple (Since h services clock 0) (destroy h d) (λ u s. IsDown d s) NotFuel
  unfolding destroy IsDown
  destroy-IsDown d =
      Triple-weaken _ (virsh_command-Ran h services clock 0 (lit "destroy") d _) λ u s k. inr k.0

  one_round :
      (n m time_end : ℕ) (d : Text)
      → (¬ (time_end < m)
          → Triple
              (Since h services clock (m + 5000))
              (wait_shut_off h services n time_end d)
              (λ u s. IsDown d s)
              NotFuel)
      → Triple
          (Since h services clock m)
          (wait_shut_off h services (suc n) time_end d)
          (λ u s. IsDown d s)
          NotFuel
  unfolding wait_shut_off IsDown modify
  one_round n m time_end d next =
      Triple-bind _ _ (Triple-except _ _ (get_dominfo-Ran h services clock m d)) λ info.
        Triple-gets _ _ λ now.
          Triple-if (state_of info (lit "shut off")) (pure tt) _
            (λ y. Triple-pure tt λ s k. inl (k.0.0.0, k.0.0.1, rw (← k.0.0.2) y))
            (λ o.
              Triple-if (ltb time_end now) (destroy h d) _
                (λ late. Triple-strengthen _ (destroy-IsDown d) λ s k. omega arith)
                (λ early. record {
                  at = λ s k.
                      (Triple-bind {P = Since h services clock m}
                          (modify (λ s. (s.0, h.sleep 5 s.1))) _ (slept m)
                          λ u. next (λ l. ground (arith, k.0.1, k.1))).at
                        s k.0.1;
                }))
    where
      slept :
          (m : ℕ)
          → Triple
              (Since h services clock m)
              (modify (λ s. (s.0, h.sleep 5 s.1)))
              (λ u. Since h services clock (m + 5000))
              NotFuel
      slept m = record { at = λ s p. (let t = clock.sleep_takes 5 s.1 in omega arith) }

  -- With as many rounds left as the time left has steps of five seconds, the wait ends.
  wait_shut_off-IsDown :
      (n m time_end : ℕ) (d : Text)
      → time_end < m + n * 5000
      → Triple
          (Since h services clock m)
          (wait_shut_off h services (suc n) time_end d)
          (λ u s. IsDown d s)
          NotFuel
  wait_shut_off-IsDown zero m time_end d l = one_round 0 m time_end d λ n. absurd (n (omega arith))
  wait_shut_off-IsDown (suc n) m time_end d l =
      one_round (suc n) m time_end d λ o. wait_shut_off-IsDown n (m + 5000) time_end d (omega arith)

  -- On a host whose clock runs on, `shutdown` with a round for each five seconds of its timeout and two
  -- more ends without using them up; when it returns, the last command it ran told that the domain
  -- is shut off or destroyed it.
  pub shutdown-IsDown :
      (d : Text) (timeout : ℕ)
      → Triple
          (λ s. Unit)
          (shutdown h services (suc (timeout / 5 + 1)) d timeout)
          (λ u s. IsDown d s)
          NotFuel
  unfolding shutdown
  shutdown-IsDown d timeout =
      Triple-bind _ _
        (Triple-strengthen _ (virsh_command-Ran h services clock 0 _ _ _) λ s p. omega arith)
        λ u. Triple-gets _ _ λ now.
          Triple-strengthen _
            (wait_shut_off-IsDown (timeout / 5 + 1) now (now + timeout * 1000) d (omega arith))
            λ s k. omega arith
