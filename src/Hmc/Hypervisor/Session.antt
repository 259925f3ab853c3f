-- ===== src/Hmc/Hypervisor/Session.antt =====
-- The session with the console (hypervisors/hmc/hmc.py): what the operations do without one, and that
-- they keep it as it is.
use tessia_baselib.Prelude.{
  ℕ, ◌≡◌, refl, sym, subst, ◌∙◌, none, some, false, String, Option, List, [], Text, contains,
}
use tessia_baselib.Python.{
  Error, connection_error, type_error, Outcome, returned, raised, Method, pure, raise, gets, modify,
  ◌>>=◌, ◌>>◌,
}
use tessia_baselib.Python.Rules.{
  Post, Triple, Triple-pure, Triple-raise, Triple-if, Triple-option, Triple-bind, Triple-weaken,
  Triple-gets, Triple-lift,
}
use tessia_baselib.Hmc.Client.{Client, Guest, partition, lpar}
use tessia_baselib.Hmc.Boot.{BootParams, Url}
use tessia_baselib.Hmc.Terminal.{Terminal}
use tessia_baselib.Hmc.Volumes.{VolumeDescriptor}
use tessia_baselib.Hmc.Hypervisor.{
  StartParameters, State, remote, set_conn, require_login, or_value_error, or_login_error, login,
  login_timeout, ensure_login, logoff, get_cpc, assert_dpm_status, get_guest, set_boot_device,
  query_dpm_storage_devices, start, stop, reboot, check_parameters, groups_or_none, describe_groups,
}

module _ {z : Client} where
  -- `m` leaves `_conn` as it is, also when it raises.
  abbrev pub KeepsSession : {A : Type 0} → Option z.Session → Method (State z) A → Type 0
  KeepsSession b m = Triple (λ s. s.conn ≡ b) m (λ a s. s.conn ≡ b) (λ e s. s.conn ≡ b)

  remote-KeepsSession :
      {A : Type 0} (b : Option z.Session) (m : Method z.World A) → KeepsSession b (remote m)
  unfolding remote
  remote-KeepsSession {A} b m = record { at = λ s k. go s k (m s.world).0 (m s.world).1 }
    where
      go :
          (s : State z)
          → s.conn ≡ b
          → (r : Outcome A) (w : z.World)
          → Post {S = State z}
              (λ a s. s.conn ≡ b)
              (λ e s. s.conn ≡ b)
              r
              (record { conn = s.conn; world = w })
      go s k (returned a) w = k
      go s k (raised e) w = k

  -- a call that returns has been made
  remote-Ran :
      {A : Type 0} (b : Option z.Session) (m : Method z.World A)
      → Triple
          (λ s. s.conn ≡ b)
          (remote {z = z} m)
          (λ a s. (s.conn ≡ b) × ((v : z.World) × (m v ≡ (returned a, s.world))))
          (λ e s. s.conn ≡ b)
  unfolding remote
  remote-Ran {A} b m = record { at = λ s k. go s k (m s.world).0 (m s.world).1 refl }
    where
      go :
          (s : State z)
          → s.conn ≡ b
          → (r : Outcome A) (w : z.World) → m s.world ≡ (r, w)
          → Post {S = State z}
              (λ a s. (s.conn ≡ b) × ((v : z.World) × (m v ≡ (returned a, s.world))))
              (λ e s. s.conn ≡ b)
              r
              (record { conn = s.conn; world = w })
      go s k (returned a) w e = (k, (s.world, e))
      go s k (raised x) w e = k

  -- it gives the session that is there
  require_login-session :
      (b : Option z.Session) (message : String)
      → Triple
          (λ s. s.conn ≡ b)
          (require_login {z = z} message)
          (λ session s. (s.conn ≡ b) × (b ≡ some session))
          (λ e s. s.conn ≡ b)
  unfolding require_login
  require_login-session b message = Triple-gets _ _ λ c.
      Triple-option c (raise (connection_error message)) pure (λ y. Triple-raise _ λ s k. k.0)
        (λ session n. Triple-pure session λ s k. (k.0, sym k.0 ∙ k.1 ∙ n))

  require_login-KeepsSession :
      (b : Option z.Session) (message : String) → KeepsSession b (require_login {z = z} message)
  require_login-KeepsSession b message =
      Triple-weaken _ (require_login-session b message) λ session s k. k.0

module _ {z : Client} (t : Terminal z) (urlsplit : Text → Url) (name : Text) where
  get_cpc-KeepsSession : (b : Option z.Session) → KeepsSession b (get_cpc t urlsplit name)
  unfolding get_cpc
  get_cpc-KeepsSession b = Triple-gets _ _ λ c.
      Triple-option c (raise (type_error "'NoneType' object is not subscriptable")) _
        (λ n. Triple-raise _ λ s k. k.0)
        λ session y. record {
          at = λ s k. (remote-KeepsSession b (or_value_error _ (z.find_cpc session name))).at s k.0;
        }

  get_guest-KeepsSession :
      (b : Option z.Session) (cpc : z.Cpc) (guest_name : Text)
      → KeepsSession b (get_guest t urlsplit name cpc guest_name)
  unfolding get_guest assert_dpm_status
  get_guest-KeepsSession b cpc guest_name =
      Triple-if (z.dpm_enabled cpc) _ _
        (λ y. Triple-bind _ _ (remote-KeepsSession b _) λ p.
          Triple-bind _ _ (remote-KeepsSession b (z.partition_status p)) λ status.
            Triple-bind {R = λ u s. s.conn ≡ b} _ _
              (Triple-if (contains _ status) (pure tt) (raise _) (λ y. Triple-pure tt λ s k. k)
                (λ n. Triple-raise _ λ s k. k))
              λ u. Triple-pure (partition p) λ s k. k)
        (λ n. Triple-bind _ _ (remote-KeepsSession b _) λ l. Triple-pure (lpar l) λ s k. k)

  on_guest-KeepsSession :
      (b : Option z.Session) (guest_name : Text) (f : Guest z → Method z.World (Unit {0}))
      → KeepsSession b (do
        require_login "You need to login first"
        cpc ← get_cpc t urlsplit name
        guest ← get_guest t urlsplit name cpc guest_name
        remote (f guest))
  on_guest-KeepsSession b guest_name f = Triple-bind _ _ (require_login-KeepsSession b _) λ u.
      Triple-bind _ _ (get_cpc-KeepsSession b) λ cpc.
        Triple-bind _ _ (get_guest-KeepsSession b cpc guest_name)
          λ guest. remote-KeepsSession b (f guest)

  -- start, stop and reboot do not touch `_conn`
  operations-KeepsSession :
      (b : Option z.Session) (fuel : ℕ) (guest_name : Text) (cpu memory : ℕ) (p : StartParameters)
      (notify : Option t.Event)
      → KeepsSession b (start t urlsplit name fuel guest_name cpu memory p notify)
        × KeepsSession b (stop t urlsplit name guest_name)
        × KeepsSession b (reboot t urlsplit name guest_name)
  unfolding start stop reboot
  operations-KeepsSession b fuel guest_name cpu memory p notify = (
    Triple-bind _ _ (require_login-KeepsSession b _) λ u.
        Triple-bind _ _ (get_cpc-KeepsSession b) λ cpc.
          Triple-lift (check_parameters (z.dpm_enabled cpc) cpu p) _
            (λ u' h.
              Triple-bind _ _ (get_guest-KeepsSession b cpc guest_name)
                λ guest. remote-KeepsSession b _)
            (λ e s h k. k),
    on_guest-KeepsSession b guest_name _,
    on_guest-KeepsSession b guest_name _,
  )

  -- no session is in the object, and the console has logged off `session`
  abbrev pub LoggedOff : z.Session → State z → Type 0
  LoggedOff session s =
      (s.conn ≡ none) × ((v : z.World) × (z.logoff session v ≡ (returned tt, s.world)))

  logoff-LoggedOff :
      (session : z.Session)
      → Triple
          (λ s. s.conn ≡ some session)
          (logoff t urlsplit name)
          (λ u s. LoggedOff session s)
          (λ e s. s.conn ≡ some session)
  unfolding logoff set_conn modify
  logoff-LoggedOff session = Triple-bind _ _ (require_login-session (some session) _) λ own.
      Triple-bind
        {R = λ u s.
          (s.conn ≡ some session) × ((v : z.World) × (z.logoff session v ≡ (returned tt, s.world)))}
        _ _
        (record {
          at = λ s k.
              (subst
                  (λ x.
                    Triple (λ s. s.conn ≡ some session) (remote {z = z} (z.logoff x))
                      (λ u s.
                        (s.conn ≡ some session)
                        × ((v : z.World) × (z.logoff session v ≡ (returned tt, s.world))))
                      (λ e s. s.conn ≡ some session))
                  (same session own k.1) (remote-Ran (some session) (z.logoff session))).at
                s k.0;
        })
        λ u. record { at = λ s k. (refl, k.1) }
    where
      same : (a b : z.Session) → some a ≡ some b → a ≡ b
      same a b e = cc e

  module _ (w w' : z.World) (session : z.Session)
      (logged_on : z.logon login_timeout w ≡ (returned session, w')) where
    abbrev Disconnected : State z → Type 0
    Disconnected s = s ≡ record { conn = none; world = w }

    ensure_login-connects :
        Triple Disconnected
          (ensure_login t urlsplit name)
          (λ c s. (c ≡ false) × (s.conn ≡ some session))
          (λ e s. s.conn ≡ some session)
    unfolding ensure_login login remote or_login_error set_conn modify ◌>>=◌ gets pure
    ensure_login-connects = record { at = λ s k. rw (k, logged_on) (refl, refl) }

    -- Called without a session where the logon gives one, query_dpm_storage_devices leaves this session in
    -- the object, whether it returns or raises.
    pub query-leaves_open :
        (guest_name : Text)
        → Triple Disconnected
            (query_dpm_storage_devices t urlsplit name guest_name)
            (λ ds s. s.conn ≡ some session)
            (λ e s. s.conn ≡ some session)
    unfolding query_dpm_storage_devices
    query-leaves_open guest_name = Triple-bind _ _ ensure_login-connects λ c. record {
      at = λ s k.
          (Triple-bind {P = λ s. s.conn ≡ some session} _ _ (get_cpc-KeepsSession (some session))
              λ cpc.
                Triple-bind _ _ (get_guest-KeepsSession (some session) cpc guest_name)
                  λ guest. describe guest).at
            s k.1;
    }
      where
        describe :
            (guest : Guest z)
            → KeepsSession
                (some session)
                (elim guest as (λ x. Method (State z) (List VolumeDescriptor)) [
                  | lpar l ↦ pure []
                  | partition p ↦ (do
                    groups ← remote (groups_or_none t urlsplit name p)
                    remote (describe_groups t urlsplit name p groups))
                ])
        describe (lpar l) = Triple-pure [] λ s k. k
        describe (partition p) =
            Triple-bind _ _ (remote-KeepsSession (some session) _)
              λ groups. remote-KeepsSession (some session) _

    -- Called without a session where the logon gives one, set_boot_device, when it returns, has logged off
    -- this session last and has none in the object, and leaves it in the object when it raises.
    pub set_boot_device-closes :
        (guest_name : Text) (boot_device : BootParams)
        → Triple Disconnected
            (set_boot_device t urlsplit name guest_name boot_device)
            (λ u s. LoggedOff session s)
            (λ e s. s.conn ≡ some session)
    unfolding set_boot_device
    set_boot_device-closes guest_name boot_device = Triple-bind _ _ ensure_login-connects λ c.
        record {
          at = λ s k.
              (Triple-bind {P = λ s. s.conn ≡ some session} _ _
                  (get_cpc-KeepsSession (some session))
                  λ cpc.
                    Triple-bind {R = λ u s. s.conn ≡ some session} _ _
                      (Triple-if (z.dpm_enabled cpc) _ (pure tt)
                        (λ y.
                          Triple-bind _ _ (get_guest-KeepsSession (some session) cpc guest_name)
                            λ guest. remote-KeepsSession (some session) _)
                        (λ n. Triple-pure tt λ s h. h))
                      λ u.
                        Triple-if c (pure tt) (logoff t urlsplit name) (λ y. absurd (cc (y, k.0)))
                          (λ n. logoff-LoggedOff session)).at
                s k.1;
        }

  -- `m` raises `e` and leaves everything as it was.
  abbrev Refuses : {A : Type 0} → Error → Method (State z) A → State z → Type 0
  Refuses e m s = m s ≡ (raised e, s)

  -- Without a session, start, stop, reboot and logoff raise ConnectionError and change nothing.
  require_session :
      (w : z.World) (fuel : ℕ) (guest_name : Text) (cpu memory : ℕ) (p : StartParameters)
      (notify : Option t.Event)
      → let s : State z = record { conn = none; world = w } in
        Refuses
          (connection_error "You need to login first")
          (start t urlsplit name fuel guest_name cpu memory p notify)
          s
        × Refuses (connection_error "You need to login first") (stop t urlsplit name guest_name) s
        × Refuses (connection_error "You need to login first") (reboot t urlsplit name guest_name) s
        × Refuses (connection_error "You need to login first.") (logoff t urlsplit name) s
  unfolding start stop reboot logoff require_login ◌>>=◌
  require_session w fuel guest_name cpu memory p notify = (refl, refl, refl, refl)
