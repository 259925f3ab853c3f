-- ===== src/Hmc/Hypervisor/Active.antt =====
-- An LPAR is active before start loads it (hypervisors/hmc/hmc.py).
use tessia_baselib.Prelude.{
  ℕ, Option, ◌≡◌, refl, ap, ◌∙◌, inl, inr, Bool-cases, true, false, Text, lit, text_eq, arith,
}
use tessia_baselib.Python.{Error, http_error, Outcome, returned, raised, Method, pure}
use tessia_baselib.Python.Rules.{Post, Triple, Triple-pure, Triple-if, Triple-bind, Triple-call}
use tessia_baselib.Hmc.Client.{Client, lpar}
use tessia_baselib.Hmc.Boot.{Url, load}
use tessia_baselib.Hmc.Live.{do_netsetup}
use tessia_baselib.Hmc.Terminal.{Terminal}
use tessia_baselib.Hmc.Resources.{is_status, tolerate_263, activate_lpar}
use tessia_baselib.Hmc.Hypervisor.{
  StartParameters, ensure_active, resource_args, update_resources, start_guest,
}

-- What the console documents of an LPAR: a status other than "not-activated" tells that it is active, so
-- does the end of a wait for an active status, and so does error 500, 263 of an activation.
pub record ActiveLaws (z : Client) (l : z.Lpar) (IsActive : z.World → Type 0) : Type 0 where
  pub status_tells :
      (status : Text) (w w' : z.World)
      → z.lpar_status l w ≡ (returned status, w')
      → text_eq status (lit "not-activated") ≡ false
      → IsActive w'
  pub wait_tells : (w w' : z.World) → z.wait_active l w ≡ (returned tt, w') → IsActive w'
  pub activate_263 :
      (profile : Text) (w w' : z.World)
      → z.activate l profile w ≡ (raised (http_error 500 263), w')
      → IsActive w'
  pub wait_263 :
      (w w' : z.World) → z.wait_active l w ≡ (raised (http_error 500 263), w') → IsActive w'

module _ {S : Type 0} {Q : S → Type 0} where
  tolerate_263-Triple :
      (m : Method S (Unit {0}))
      → Triple (λ s. Unit) m (λ u s. Q s) (λ e s. is_status e 500 263 ≡ true → Q s)
      → Triple (λ s. Unit) (tolerate_263 m) (λ u s. Q s) (λ e s. Unit)
  unfolding tolerate_263
  tolerate_263-Triple m h = record { at = λ s k. go s (m s).0 (m s).1 refl (h.at s tt) }
    where
      go :
          (s : S) (r : Outcome (Unit {0})) (s' : S)
          → m s ≡ (r, s')
          → Post (λ u s. Q s) (λ e s. is_status e 500 263 ≡ true → Q s) r s'
          → Post {S = S} (λ u s. Q s) (λ e s. Unit) (tolerate_263 m s).0 (tolerate_263 m s).1
      go s (returned u) s' e k = rw e k
      go s (raised x) s' e k = elim (Bool-cases (is_status x 500 263)) [
        | inl y ↦ rw (e, y) (k y)
        | inr n ↦ rw (e, n) tt
      ]

any_end :
    {S : Type 0} (r : Outcome (Unit {0})) (s : S)
    → Post {S = S} {A = Unit {0}} (λ u s. Unit) (λ e s. Unit) r s
any_end (returned u) s = tt
any_end (raised x) s = tt

is_263 : (e : Error) → is_status e 500 263 ≡ true → e ≡ http_error 500 263
unfolding is_status
is_263 (http_error a b) h = ground arith
is_263 e h = absurd (cc h)

module _ {z : Client} (t : Terminal z) (urlsplit : Text → Url) (name : Text) {l : z.Lpar}
    {IsActive : z.World → Type 0} (laws : ActiveLaws z l IsActive) where
  activate_lpar-IsActive :
      (profile : Text)
      → Triple (λ w. Unit) (activate_lpar z l profile) (λ u w. IsActive w) (λ e w. Unit)
  unfolding activate_lpar
  activate_lpar-IsActive profile = tolerate_263-Triple _ (
      Triple-bind _ _
        (Triple-call (z.activate l profile) λ e w w' k h y.
          laws.activate_263 profile w w' (h ∙ ap (λ x. (raised x, w')) (is_263 e y)))
        λ u. record { at = λ w k. go w (z.wait_active l w).0 (z.wait_active l w).1 refl })
    where
      go :
          (w : z.World) (r : Outcome (Unit {0})) (w' : z.World)
          → z.wait_active l w ≡ (r, w')
          → Post (λ u s. IsActive s) (λ e s. is_status e 500 263 ≡ true → IsActive s) r w'
      go w (returned u) w' e = laws.wait_tells w w' e
      go w (raised x) w' e = λ y. laws.wait_263 w w' (e ∙ ap (λ x. (raised x, w')) (is_263 x y))

  -- the guest is active when it is to be loaded
  ensure_active-IsActive :
      Triple (λ w. Unit) (ensure_active t urlsplit name (lpar l)) (λ u w. IsActive w) (λ e w. Unit)
  unfolding ensure_active
  ensure_active-IsActive = Triple-bind _ _ (Triple-call (z.pull_lpar l) λ e w w' k h. tt) λ u.
      Triple-bind _ _ (Triple-call (z.lpar_status l) λ e w w' k h. tt) λ status.
        Triple-if (text_eq status (lit "not-activated")) _ (pure tt)
          (λ y.
            Triple-bind _ _ (Triple-call (z.lpar_name l) λ e w w' k h. tt)
              λ own_name. record { at = λ w k. (activate_lpar-IsActive own_name).at w tt })
          (λ n. Triple-pure tt λ w k. laws.status_tells status k.0 w k.2 n)

  -- What start has done to an LPAR when it returns: it was loaded while it was active, and nothing came
  -- after the load but the network setup.
  pub record LoadedActive (fuel : ℕ) (p : StartParameters) (notify : Option t.Event) (end : z.World)
      : Type 0 where
    pub active : z.World
    pub was_active : IsActive active
    pub loaded : z.World
    pub load_ended : load z urlsplit (lpar l) p.boot_params active ≡ (returned tt, loaded)
    pub rest_ended :
        do_netsetup t fuel (lpar l) p.boot_params.netsetup p.boot_params.netboot notify loaded
        ≡ (returned tt, end)

  finished :
      (fuel : ℕ) (p : StartParameters) (notify : Option t.Event) (active loaded : z.World)
      → IsActive active
      → load z urlsplit (lpar l) p.boot_params active ≡ (returned tt, loaded)
      → (r : Outcome (Unit {0})) (w : z.World)
      → do_netsetup t fuel (lpar l) p.boot_params.netsetup p.boot_params.netboot notify loaded
        ≡ (r, w)
      → Post (λ u w. LoadedActive fuel p notify w) (λ e w. Unit) r w
  finished fuel p notify active loaded a e (returned u) w d = record {
    active = active;
    was_active = a;
    loaded = loaded;
    load_ended = e;
    rest_ended = d;
  }
  finished fuel p notify active loaded a e (raised x) w d = tt

  -- Where the console tells of the status of an LPAR as it documents: when the part of start that follows
  -- the search for the guest returns for an LPAR, then the LPAR was active in the very state in which it
  -- was loaded, and only the network setup came after the load.
  pub start_guest-LoadedActive :
      (fuel : ℕ) (cpc : z.Cpc) (cpu memory : ℕ) (p : StartParameters) (notify : Option t.Event)
      → Triple
          (λ w. Unit)
          (start_guest t urlsplit name fuel cpc (lpar l) cpu memory p notify)
          (λ u w. LoadedActive fuel p notify w)
          (λ e w. Unit)
  unfolding start_guest
  start_guest-LoadedActive fuel cpc cpu memory p notify =
      Triple-bind _ _
        (Triple-call (resource_args t urlsplit name cpc cpu memory p) λ e w w' k h. tt)
        λ args.
          Triple-bind {R = λ u w. Unit} _ _
            (record { at = λ w k. any_end (update_resources t urlsplit name args (lpar l) w).0 _ })
            λ u. Triple-bind _ _ ensure_active-IsActive λ u'.
              Triple-bind _ _
                (Triple-call (load z urlsplit (lpar l) p.boot_params) λ e w w' k h. tt)
                λ u''. record {
                  at = λ w k.
                      finished fuel p notify k.0 w k.1 k.2
                        (do_netsetup t fuel (lpar l) p.boot_params.netsetup p.boot_params.netboot
                          notify w).0
                        (do_netsetup t fuel (lpar l) p.boot_params.netsetup p.boot_params.netboot
                          notify w).1
                        refl;
                }
