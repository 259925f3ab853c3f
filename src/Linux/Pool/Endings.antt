-- ===== src/Linux/Pool/Endings.antt =====
-- How the loop of StoragePool.activate ends, given as many passes as its slowest thread needs.
use tessia_baselib.Prelude.{
  ℕ, zero, suc, ◌≤◌, ◌≡◌, refl, subst, ◌∙◌, ◌⊎◌, inl, inr, Bool, true, false, ◌||◌, List, [], ◌∷◌,
  Text, All, arith,
}
use tessia_baselib.Python.{runtime_error, Error, Outcome, returned, raised, Method, pure, ◌>>=◌}
use tessia_baselib.Volume.{DevPaths, dev_path}
use tessia_baselib.Linux.Host.{Host}
use tessia_baselib.Linux.Pool.{Task, check_tasks, wait}
use tessia_baselib.Linux.Pool.Waiting.{Distinct, path_of, EndsWithin, Succeeds, Passed, pass}

-- the report of a thread that raised
abbrev pub failure : Error
failure = runtime_error "Failed to activate disk {}"

is_raised : Outcome Text → Bool
is_raised (returned path) = false
is_raised (raised e) = true

-- Whether some thread raises.
unfoldable pub some_fails : List Task → Bool
unfolding is_raised
some_fails [] = false
some_fails (t ∷ ts) = is_raised t.ret || some_fails ts

record GoesOn (n : ℕ) (tasks : List Task) (paths : DevPaths) : Type 0 where
  rest : List Task
  done : DevPaths
  checked : check_tasks tasks paths ≡ returned (rest, done)
  sooner : All (λ t. suc t.alive ≤ n) rest
  same_failures : some_fails rest ≡ some_fails tasks

-- A pass reports a failure, or no thread that has ended by now has failed.
pass_or_failure :
    (n : ℕ) (tasks : List Task) (paths : DevPaths)
    → All (EndsWithin n) tasks
    → (check_tasks tasks paths ≡ raised failure) ⊎ GoesOn n tasks paths
unfolding check_tasks some_fails is_raised
pass_or_failure n [] paths e =
    inr (record { rest = []; done = paths; checked = refl; sooner = tt; same_failures = refl })
pass_or_failure n (t ∷ ts) paths e =
    go t.alive t.ret refl refl (pass_or_failure n ts paths e.1) (λ p. pass_or_failure n ts p e.1)
  where
    go :
        (a : ℕ) (r : Outcome Text)
        → t.alive ≡ a
        → t.ret ≡ r
        → (check_tasks ts paths ≡ raised failure) ⊎ GoesOn n ts paths
        → ((p : DevPaths) → (check_tasks ts p ≡ raised failure) ⊎ GoesOn n ts p)
        → (check_tasks (t ∷ ts) paths ≡ raised failure) ⊎ GoesOn n (t ∷ ts) paths
    go zero (raised x) z y q p = inl (rw (z, y) refl)
    go zero (returned path) z y q p = elim (p ((t.volume_id, path) ∷ paths)) [
      | inl f ↦ inl (rw (z, y) f)
      | inr g ↦ inr (record {
        rest = g.rest;
        done = g.done;
        checked = rw (z, y) g.checked;
        sooner = g.sooner;
        same_failures = rw (y, g.same_failures) refl;
      })
    ]
    go (suc m) r z y (inl f) p = inl (rw (z, f) refl)
    go (suc m) r z y (inr g) p = inr (record {
      rest = record t { alive = m } ∷ g.rest;
      done = g.done;
      checked = rw (z, g.checked) refl;
      sooner = (subst (λ x. x ≤ n) z e.0, g.sooner);
      same_failures = rw g.same_failures refl;
    })

-- how the wait returns the paths of `tasks` and those that are known
pub record ReturnsPaths {W : Type 0} (m : Method W DevPaths) (w : W) (tasks : List Task)
    (paths : DevPaths) : Type 0 where
  pub result : DevPaths
  pub end : W
  pub ends : m w ≡ (returned result, end)
  pub same_paths : (k : Text) → dev_path result k ≡ path_of tasks paths k

fewer : (n : ℕ) (ts : List Task) → All (λ t. suc t.alive ≤ suc n) ts → All (EndsWithin n) ts
fewer n [] e = tt
fewer n (t ∷ ts) e = (omega arith, fewer n ts e.1)

none_left : (t : Task) → ¬ (suc t.alive ≤ 0)
none_left t l = omega arith

module _ (h : Host) where
  after_pass :
      (n : ℕ) (tasks : List Task) (paths : DevPaths) (w : h.World)
      → ((t : Task) (ts : List Task) (done : DevPaths)
          → Passed n tasks paths (t ∷ ts) done
          → ReturnsPaths (wait h n (t ∷ ts) done) (h.sleep_half w) (t ∷ ts) done)
      → (rest : List Task) (done : DevPaths) → check_tasks tasks paths ≡ returned (rest, done)
      → Passed n tasks paths rest done
      → ReturnsPaths (wait h (suc n) tasks paths) w tasks paths
  unfolding wait ◌>>=◌ path_of
  after_pass n tasks paths w next [] done c p = record {
    result = done;
    end = h.sleep_half w;
    ends = rw c refl;
    same_paths = p.same_paths;
  }
  after_pass n tasks paths w next (t ∷ ts) done c p =
      let r = next t ts done p in
      record {
        result = r.result;
        end = r.end;
        ends = rw c r.ends;
        same_paths = λ k. r.same_paths k ∙ p.same_paths k;
      }

  -- If every thread returns, the wait returns the path of every task, after as many passes as the
  -- slowest thread is found alive and one more.
  pub wait-Succeeds :
      (n : ℕ) (tasks : List Task) (paths : DevPaths) (w : h.World)
      → Distinct tasks
      → All (EndsWithin n) tasks
      → All Succeeds tasks
      → ReturnsPaths (wait h (suc n) tasks paths) w tasks paths
  wait-Succeeds zero tasks paths w d e s =
      let p = pass 0 tasks paths d e s in
      after_pass 0 tasks paths w (λ t ts done q. absurd (none_left t q.sooner.0)) p.rest p.done
        p.checked p.passed
  wait-Succeeds (suc n) tasks paths w d e s =
      let p = pass (suc n) tasks paths d e s in
      after_pass (suc n) tasks paths w
        (λ t ts done q.
          wait-Succeeds n (t ∷ ts) done (h.sleep_half w) q.distinct (fewer n (t ∷ ts) q.sooner)
            q.succeed)
        p.rest p.done p.checked p.passed

  pass_fails :
      (n : ℕ) (tasks : List Task) (paths : DevPaths) (w : h.World)
      → ((t : Task) (ts : List Task) (done : DevPaths)
          → All (λ u. suc u.alive ≤ n) (t ∷ ts)
          → some_fails (t ∷ ts) ≡ true
          → (wait h n (t ∷ ts) done (h.sleep_half w)).0 ≡ raised failure)
      → (check_tasks tasks paths ≡ raised failure) ⊎ GoesOn n tasks paths
      → some_fails tasks ≡ true
      → (wait h (suc n) tasks paths w).0 ≡ raised failure
  unfolding wait ◌>>=◌ some_fails
  pass_fails n tasks paths w next (inl f) s = rw f refl
  pass_fails n tasks paths w next (inr g) s =
      rw g.checked (go g.rest g.sooner (g.same_failures ∙ s))
    where
      go :
          (rest : List Task)
          → All (λ u. suc u.alive ≤ n) rest
          → some_fails rest ≡ true
          → (elim rest as (λ x. Method h.World DevPaths) [
            | [] ↦ pure g.done
            | t ∷ ts ↦ wait h n (t ∷ ts) g.done
          ]
              (h.sleep_half w)).0
            ≡ raised failure
      go [] l x = ground arith
      go (t ∷ ts) l x = next t ts g.done l x

  -- If some thread raises, the wait raises RuntimeError.
  pub wait_fails :
      (n : ℕ) (tasks : List Task) (paths : DevPaths) (w : h.World)
      → All (EndsWithin n) tasks
      → some_fails tasks ≡ true
      → (wait h (suc n) tasks paths w).0 ≡ raised failure
  wait_fails zero tasks paths w e s =
      pass_fails 0 tasks paths w (λ t ts done l x. absurd (none_left t l.0))
        (pass_or_failure 0 tasks paths e) s
  wait_fails (suc n) tasks paths w e s =
      pass_fails (suc n) tasks paths w
        (λ t ts done l x. wait_fails n (t ∷ ts) done (h.sleep_half w) (fewer n (t ∷ ts) l) x)
        (pass_or_failure (suc n) tasks paths e) s
