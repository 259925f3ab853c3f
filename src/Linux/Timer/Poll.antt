-- ===== src/Linux/Timer/Poll.antt =====
-- What a polling loop has done, by how it ended.
use tessia_baselib.Prelude.{
  ℕ, zero, suc, ◌≡◌, ◌≢◌, refl, ◌⊎◌, inl, inr, Option, none, some, List, [], ◌∷◌, ◌++◌, String,
  Text, arith,
}
use tessia_baselib.Python.{Error, runtime_error, Outcome, returned, raised, Method, continue, ◌>>=◌}
use tessia_baselib.Python.Rules.{Post}
use tessia_baselib.Linux.Host.{Host}
use tessia_baselib.Linux.Timer.{poll, succeeds, timer, timer_end}

module _ (h : Host) {A : Type 0} (attempt : Method h.World (Option A)) where
  -- Every attempt, after its sleep, gave nothing.
  pub data Missed : List ℕ → h.World → h.World → Type 0 where
    over : {w : h.World} → Missed [] w w
    missed :
        {n : ℕ} {ns : List ℕ} {w w' w'' : h.World}
        → attempt (h.sleep n w) ≡ (returned none, w')
        → Missed ns w' w''
        → Missed (n ∷ ns) w w''

  -- Some attempt, all before it having given nothing, ended with `r`.
  pub record Ended (times : List ℕ) (w : h.World) (r : Outcome (Option A)) (w' : h.World)
      : Type 0 where
    pub before : List ℕ
    pub time : ℕ
    pub after : List ℕ
    pub split : times ≡ before ++ time ∷ after
    pub last : h.World
    pub misses : Missed before w last
    pub attempted : attempt (h.sleep time last) ≡ (r, w')

  abbrev pub Polled : List ℕ → h.World → Outcome (Option A) → h.World → Type 0
  Polled times w (returned none) w' = Missed times w w'
  Polled times w (returned (some a)) w' = Ended times w (returned (some a)) w'
  Polled times w (raised e) w' = Ended times w (raised e) w'

  later :
      (n : ℕ) (ns : List ℕ) (w w₁ : h.World) (r : Outcome (Option A)) (w' : h.World)
      → attempt (h.sleep n w) ≡ (returned none, w₁)
      → Ended ns w₁ r w'
      → Ended (n ∷ ns) w r w'
  later n ns w w₁ r w' e k = record {
    before = n ∷ k.before;
    time = k.time;
    after = k.after;
    split = cc (k.split);
    last = k.last;
    misses = missed e k.misses;
    attempted = k.attempted;
  }

  Polled-later :
      (n : ℕ) (ns : List ℕ) (w w₁ : h.World) (r : Outcome (Option A)) (w' : h.World)
      → attempt (h.sleep n w) ≡ (returned none, w₁)
      → Polled ns w₁ r w'
      → Polled (n ∷ ns) w r w'
  Polled-later n ns w w₁ (returned none) w' e k = missed e k
  Polled-later n ns w w₁ (returned (some a)) w' e k = later n ns w w₁ (returned (some a)) w' e k
  Polled-later n ns w w₁ (raised x) w' e k = later n ns w w₁ (raised x) w' e k

  -- A polling loop ends with the first attempt that gives a value or raises, all before it having
  -- given nothing, and with nothing only after every time has been used.
  poll_lem :
      (times : List ℕ) (w : h.World)
      → Polled times w (poll h times attempt w).0 (poll h times attempt w).1
  unfolding poll ◌>>=◌
  poll_lem [] w = over
  poll_lem (n ∷ ns) w = go (attempt (h.sleep n w)).0 (attempt (h.sleep n w)).1 (poll_lem ns) refl
    where
      go :
          (r : Outcome (Option A)) (w₁ : h.World)
          → ((v : h.World) → Polled ns v (poll h ns attempt v).0 (poll h ns attempt v).1)
          → attempt (h.sleep n w) ≡ (r, w₁)
          → Polled (n ∷ ns) w (poll h (n ∷ ns) attempt w).0 (poll h (n ∷ ns) attempt w).1
      go (returned none) w₁ ih e =
          rw e (Polled-later n ns w w₁ (poll h ns attempt w₁).0 (poll h ns attempt w₁).1 e (ih w₁))
      go (returned (some a)) w₁ ih e = rw e (record {
        before = [];
        time = n;
        after = ns;
        split = refl;
        last = w;
        misses = over;
        attempted = e;
      })
      go (raised x) w₁ ih e = rw e (record {
        before = [];
        time = n;
        after = ns;
        split = refl;
        last = w;
        misses = over;
        attempted = e;
      })

module _ (h : Host) (shell : h.Shell) (cmd : Text) where
  -- A round succeeds exactly if the command ends with exit status 0.
  pub succeeds_lem :
      (w w' : h.World) (u : Unit {0})
      → succeeds h shell cmd w ≡ (returned (some u), w')
      → (out : Text) × (h.run shell cmd w ≡ (returned (0, out), w'))
  unfolding succeeds ◌>>=◌
  succeeds_lem w w' u k = go (h.run shell cmd w).0 (h.run shell cmd w).1 refl
    where
      go :
          (r : Outcome (ℕ × Text)) (w₁ : h.World)
          → h.run shell cmd w ≡ (r, w₁)
          → (out : Text) × (h.run shell cmd w ≡ (returned (0, out), w'))
      go (raised x) w₁ e = absurd (ground (arith, e, k))
      go (returned (zero, out)) w₁ e = (out, ground (arith, e, k))
      go (returned (suc code, out)) w₁ e = absurd (ground (arith, e, k))

  -- the end of `timer`, by its rounds
  pub timer_polled :
      (n : ℕ) (ns : List ℕ) (message : String) (w : h.World)
      → Post
          (λ u w'. Ended h (succeeds h shell cmd) (n ∷ ns) w (returned (some tt)) w')
          (λ e w'.
            ((e ≡ runtime_error message) × Missed h (succeeds h shell cmd) (n ∷ ns) w w')
            ⊎ Ended h (succeeds h shell cmd) (n ∷ ns) w (raised e) w')
          (timer h shell cmd (n ∷ ns) message w).0
          (timer h shell cmd (n ∷ ns) message w).1
  unfolding timer ◌>>=◌
  timer_polled n ns message w =
      go (poll h (n ∷ ns) (succeeds h shell cmd) w).0 (poll h (n ∷ ns) (succeeds h shell cmd) w).1
        (poll_lem h (succeeds h shell cmd) (n ∷ ns) w)
    where
      go :
          (r : Outcome (Option (Unit {0}))) (w' : h.World)
          → Polled h (succeeds h shell cmd) (n ∷ ns) w r w'
          → Post
              (λ u w'. Ended h (succeeds h shell cmd) (n ∷ ns) w (returned (some tt)) w')
              (λ e w'.
                ((e ≡ runtime_error message) × Missed h (succeeds h shell cmd) (n ∷ ns) w w')
                ⊎ Ended h (succeeds h shell cmd) (n ∷ ns) w (raised e) w')
              (continue r (timer_end h message) w').0
              (continue r (timer_end h message) w').1
      go (returned none) w' k = inl (refl, k)
      go (returned (some u)) w' k = k
      go (raised e) w' k = inr k

  -- Where a round gives nothing, the command ended with another status.
  missed_lem :
      (w w' : h.World)
      → succeeds h shell cmd w ≡ (returned none, w')
      → (status : ℕ) × (out : Text) × (status ≢ 0)
        × (h.run shell cmd w ≡ (returned (status, out), w'))
  unfolding succeeds ◌>>=◌
  missed_lem w w' k = go (h.run shell cmd w).0 (h.run shell cmd w).1 refl
    where
      go :
          (r : Outcome (ℕ × Text)) (w₁ : h.World)
          → h.run shell cmd w ≡ (r, w₁)
          → (status : ℕ) × (out : Text) × (status ≢ 0)
            × (h.run shell cmd w ≡ (returned (status, out), w'))
      go (raised x) w₁ e = absurd (ground (arith, e, k))
      go (returned (zero, out)) w₁ e = absurd (ground (arith, e, k))
      go (returned (suc code, out)) w₁ e =
          (suc code, out, (λ f. ground (arith, f)), ground (arith, e, k))

  -- A round raises what the connection raises.
  raised_lem :
      (w w' : h.World) (x : Error)
      → succeeds h shell cmd w ≡ (raised x, w')
      → h.run shell cmd w ≡ (raised x, w')
  unfolding succeeds ◌>>=◌
  raised_lem w w' x k = go (h.run shell cmd w).0 (h.run shell cmd w).1 refl
    where
      go :
          (r : Outcome (ℕ × Text)) (w₁ : h.World)
          → h.run shell cmd w ≡ (r, w₁)
          → h.run shell cmd w ≡ (raised x, w')
      go (raised y) w₁ e = ground (arith, e, k)
      go (returned (zero, out)) w₁ e = absurd (ground (arith, e, k))
      go (returned (suc code, out)) w₁ e = absurd (ground (arith, e, k))

  -- After each sleep the command was run, and ended with a status other than 0.
  pub data Failed : List ℕ → h.World → h.World → Type 0 where
    not_run : {w : h.World} → Failed [] w w
    failed :
        {n : ℕ} {ns : List ℕ} {w w' w'' : h.World} {status : ℕ} {out : Text}
        → h.run shell cmd (h.sleep n w) ≡ (returned (status, out), w')
        → status ≢ 0
        → Failed ns w' w''
        → Failed (n ∷ ns) w w''

  -- The command was run last after one of the sleeps, with the result `r`, and had failed after all before.
  pub record RanLast (times : List ℕ) (w : h.World) (r : Outcome (ℕ × Text)) (w' : h.World)
      : Type 0 where
    pub before : List ℕ
    pub time : ℕ
    pub after : List ℕ
    pub split : times ≡ before ++ time ∷ after
    pub last : h.World
    pub failures : Failed before w last
    pub ran : h.run shell cmd (h.sleep time last) ≡ (r, w')

  Missed-Failed :
      (ns : List ℕ) (w w' : h.World) → Missed h (succeeds h shell cmd) ns w w' → Failed ns w w'
  Missed-Failed _ _ _ over = not_run
  Missed-Failed (n ∷ ns) w w'' (missed {w' = w'} e k) =
      let (status, out, ne, ran) = missed_lem (h.sleep n w) w' e in
      failed ran ne (Missed-Failed ns w' w'' k)

  Ended-RanLast :
      (ns : List ℕ) (w w' : h.World) (r : Outcome (Option (Unit {0}))) (q : Outcome (ℕ × Text))
      (k : Ended h (succeeds h shell cmd) ns w r w')
      → h.run shell cmd (h.sleep k.time k.last) ≡ (q, w')
      → RanLast ns w q w'
  Ended-RanLast ns w w' r q k ran = record {
    before = k.before;
    time = k.time;
    after = k.after;
    split = k.split;
    last = k.last;
    failures = Missed-Failed k.before w k.last k.misses;
    ran = ran;
  }

  -- `timer` with at least one time returns after the first run of the command that ends with exit status
  -- 0, raises its RuntimeError after a run for every time has ended with another, and passes on what the
  -- connection raises; before each run it sleeps for the next of the times.
  pub timer_lem :
      (n : ℕ) (ns : List ℕ) (message : String) (w : h.World)
      → Post
          (λ u w'. (out : Text) × RanLast (n ∷ ns) w (returned (0, out)) w')
          (λ e w'.
            ((e ≡ runtime_error message) × Failed (n ∷ ns) w w') ⊎ RanLast (n ∷ ns) w (raised e) w')
          (timer h shell cmd (n ∷ ns) message w).0
          (timer h shell cmd (n ∷ ns) message w).1
  timer_lem n ns message w =
      go (timer h shell cmd (n ∷ ns) message w).0 (timer h shell cmd (n ∷ ns) message w).1
        (timer_polled n ns message w)
    where
      go :
          (r : Outcome (Unit {0})) (w' : h.World)
          → Post
              (λ u w'. Ended h (succeeds h shell cmd) (n ∷ ns) w (returned (some tt)) w')
              (λ e w'.
                ((e ≡ runtime_error message) × Missed h (succeeds h shell cmd) (n ∷ ns) w w')
                ⊎ Ended h (succeeds h shell cmd) (n ∷ ns) w (raised e) w')
              r
              w'
          → Post
              (λ u w'. (out : Text) × RanLast (n ∷ ns) w (returned (0, out)) w')
              (λ e w'.
                ((e ≡ runtime_error message) × Failed (n ∷ ns) w w')
                ⊎ RanLast (n ∷ ns) w (raised e) w')
              r
              w'
      go (returned u) w' k =
          let (out, ran) = succeeds_lem (h.sleep k.time k.last) w' tt k.attempted in
          (out, Ended-RanLast _ w w' _ _ k ran)
      go (raised e) w' (inl k) = inl (k.0, Missed-Failed _ w w' k.1)
      go (raised e) w' (inr k) =
          inr (Ended-RanLast _ w w' _ _ k (raised_lem (h.sleep k.time k.last) w' e k.attempted))
