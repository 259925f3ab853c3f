-- ===== src/Hmc/Hypervisor.antt =====
-- HypervisorHmc (tessia/baselib/hypervisors/hmc/hmc.py): the session with the console and the
-- operations on guests. The checks of `validate_params` come before each method and are no part of it.
pub mod Session
pub mod Keys
pub mod Active
use tessia_baselib.Prelude.{
  ℕ, ◌==◌, Bool, true, false, not, ◌&&◌, ◌||◌, Option, none, some, List, [], ◌∷◌, ◌++◌, map, Text,
  String, lit, lower, upper, contains, text_eq, if◌then◌else◌,
}
use tessia_baselib.Python.{
  runtime_error, value_error, type_error, connection_error, http_error, auth_error, not_found,
  foreign, Outcome, returned, raised, Method, pure, raise, lift, gets, modify, option_case, ◌>>=◌,
  ◌>>◌,
}
use tessia_baselib.Hmc.Client.{Client, Guest, partition, lpar, LastUsed}
use tessia_baselib.Hmc.Cpus.{compute_cpus}
use tessia_baselib.Hmc.Resources.{
  ResourceArgs, update_resources_partition, update_resources_lpar, activate_lpar, deactivate_lpar,
  stop_and_wait,
}
use tessia_baselib.Hmc.Boot.{BootParams, Url, get_dpm_boot_props, load}
use tessia_baselib.Hmc.Terminal.{Terminal}
use tessia_baselib.Hmc.Live.{do_netsetup}
use tessia_baselib.Hmc.Volumes.{VolumeDescriptor, describe_storage_volume}

-- `parameters` of `start`
pub record StartParameters : Type 0 where
  pub boot_params : BootParams
  pub cpus_cp : Option ℕ
  pub cpus_ifl : Option ℕ

-- the default of `timeout` in `login`
abbrev pub login_timeout : ℕ
login_timeout = 60

-- VALID_DPM_STATUSES
abbrev pub valid_dpm_statuses : List Text
valid_dpm_statuses =
    lit "active" ∷ (lit "degraded" ∷ (lit "paused" ∷ (lit "terminated" ∷ (lit "stopped" ∷ []))))

abbrev pub or_zero : Option ℕ → ℕ
or_zero none = 0
or_zero (some n) = n

-- a text that is there and not empty
abbrev pub is_given : Option Text → Bool
is_given none = false
is_given (some []) = false
is_given (some (c ∷ cs)) = true

abbrev pub is_there : Option Text → Bool
is_there none = false
is_there (some t) = true

-- the checks of the parameters against the mode of the CPC, in `start`
unfoldable pub check_parameters : Bool → ℕ → StartParameters → Outcome (Unit {0})
check_parameters dpm cpu p =
    let boot = p.boot_params in
    let scsi = text_eq boot.boot_method (lit "scsi") in
    if scsi && (dpm && not (is_there boot.uuid))
    then raised (value_error "For a CPC in DPM mode the scsi volume UUID must be provided")
    else if scsi
        && (not dpm && not (is_given boot.lun && (is_given boot.wwpn && is_given boot.devicenr)))
    then raised
        (value_error "For a CPC in classic mode the scsi DEVNO, WWPN and LUN must be provided")
    else if not (cpu == 0) && (not (or_zero p.cpus_cp == 0) || not (or_zero p.cpus_ifl == 0))
    then raised (
        value_error
          "cpu parameter must be 0 when static configuration (cpus_cp and/or cpus_ifl) is entered")
    else returned tt

handle_login : {S A : Type 0} → Outcome A → Method S A
handle_login (raised (auth_error status reason)) s =
    if status == 403
    then (raised (value_error "HMC login failed: {}"), s)
    else (raised (runtime_error "HMC login failed"), s)
handle_login r s = (r, s)

-- the handlers of the errors of `session.logon`
unfoldable pub or_login_error : {S A : Type 0} → Method S A → Method S A
unfolding handle_login
or_login_error m s = let (r, s') = m s in handle_login r s'

handle_not_found : {S A : Type 0} → String → Outcome A → Method S A
handle_not_found message (raised not_found) s = (raised (value_error message), s)
handle_not_found message r s = (r, s)

-- `except zhmcclient.NotFound: raise ValueError`
unfoldable pub or_value_error : {S A : Type 0} → String → Method S A → Method S A
unfolding handle_not_found
or_value_error message m s = let (r, s') = m s in handle_not_found message r s'

-- `_conn`, and the world
pub record State (z : Client) : Type 0 where
  pub conn : Option z.Session
  pub world : z.World

module _ {z : Client} where
  unfoldable pub remote : {A : Type 0} → Method z.World A → Method (State z) A
  remote m s = let (r, w) = m s.world in (r, record { conn = s.conn; world = w })

  unfoldable pub set_conn : Option z.Session → State z → State z
  set_conn conn s = record { conn = conn; world = s.world }

  unfoldable pub require_login : String → Method (State z) z.Session
  require_login message = do
    conn ← gets (λ s. s.conn)
    option_case conn (raise (connection_error message)) pure

module _ {z : Client} (t : Terminal z) (urlsplit : Text → Url) (name : Text) where
  -- the session that was there before is dropped
  unfoldable pub login : ℕ → Method (State z) (Unit {0})
  unfolding or_login_error remote set_conn
  login timeout = do
    session ← remote (or_login_error (z.logon timeout))
    modify (set_conn (some session))

  unfoldable pub logoff : Method (State z) (Unit {0})
  unfolding remote set_conn require_login
  logoff = do
    session ← require_login "You need to login first."
    remote (z.logoff session)
    modify (set_conn none)

  -- self._conn[0] of None
  unfoldable pub get_cpc : Method (State z) z.Cpc
  unfolding remote or_value_error
  get_cpc = do
    conn ← gets (λ s. s.conn)
    option_case conn (raise (type_error "'NoneType' object is not subscriptable")) λ session.
        remote (
          or_value_error "CPC <{}> does not exist or is not accessible by this HMC user"
            (z.find_cpc session name))

  unfoldable pub assert_dpm_status : Text → Method (State z) (Unit {0})
  assert_dpm_status status =
      if contains valid_dpm_statuses status
      then pure tt
      else raise (
          runtime_error
            "Partition cannot be managed because its current status <{}> is invalid, valid statuses are: {}")

  unfoldable pub get_guest : z.Cpc → Text → Method (State z) (Guest z)
  unfolding remote or_value_error assert_dpm_status
  get_guest cpc guest_name =
      if z.dpm_enabled cpc
      then (do
        p ← remote (
            or_value_error "Partition <{}> does not exist or is not accessible by this HMC user"
              (z.find_partition cpc (lower guest_name)))
        status ← remote (z.partition_status p)
        assert_dpm_status status
        pure (partition p))
      else (do
        l ← remote (
            or_value_error "LPAR <{}> does not exist or is not accessible by this HMC user"
              (z.find_lpar cpc (upper guest_name)))
        pure (lpar l))

  handle_storage : Outcome (List z.Group) → Method z.World (List z.Group)
  handle_storage (raised (http_error status reason)) w = (returned [], w)
  handle_storage (raised (auth_error status reason)) w = (returned [], w)
  handle_storage (raised not_found) w = (returned [], w)
  handle_storage (raised (foreign n)) w =
      if z.is_error n then (returned [], w) else (raised (foreign n), w)
  handle_storage r w = (r, w)

  -- `except zhmcclient.Error: return []`
  unfoldable pub groups_or_none : z.Partition → Method z.World (List z.Group)
  unfolding handle_storage
  groups_or_none p w = let (r, w') = z.storage_groups p w in handle_storage r w'

  unfoldable pub describe_groups :
      z.Partition → List z.Group → Method z.World (List VolumeDescriptor)
  unfolding describe_storage_volume
  describe_groups p [] = pure []
  describe_groups p (g ∷ gs) = do
    volumes ← z.full_volumes g
    rest ← describe_groups p gs
    pure (map (λ v. describe_storage_volume v (z.partition_uri p)) volumes ++ rest)

  -- log in where there is no session: was there one?
  unfoldable pub ensure_login : Method (State z) Bool
  unfolding login
  ensure_login = do
    conn ← gets (λ s. s.conn)
    option_case conn (do login login_timeout; pure false) λ session. pure true

  unfoldable pub query_dpm_storage_devices : Text → Method (State z) (List VolumeDescriptor)
  unfolding ensure_login get_cpc get_guest groups_or_none describe_groups remote
  query_dpm_storage_devices guest_name = do
    ensure_login
    cpc ← get_cpc
    guest ← get_guest cpc guest_name
    elim guest [
      | lpar l ↦ pure []
      | partition p ↦ (do groups ← remote (groups_or_none p); remote (describe_groups p groups))
    ]

  set_boot : BootParams → Guest z → Method z.World (Unit {0})
  set_boot boot (lpar l) = pure tt
  set_boot boot (partition p) = do
    update_props ← get_dpm_boot_props z urlsplit p boot
    z.update_partition p update_props

  unfoldable pub set_boot_device : Text → BootParams → Method (State z) (Unit {0})
  unfolding ensure_login logoff get_cpc get_guest set_boot remote
  set_boot_device guest_name boot_device = do
    connected ← ensure_login
    cpc ← get_cpc
    if z.dpm_enabled cpc
        then (do guest ← get_guest cpc guest_name; remote (set_boot boot_device guest))
        else pure tt
    if connected then pure tt else logoff

  -- the resources that `start` sets; none where no key is set
  unfoldable pub resource_args :
      z.Cpc → ℕ → ℕ → StartParameters → Method z.World (Option ResourceArgs)
  resource_args cpc cpu memory p =
      let mem = if memory == 0 then none else some memory in
      if cpu == 0 && (or_zero p.cpus_cp == 0 && or_zero p.cpus_ifl == 0)
      then pure (if memory == 0 then none else some (record { mem = mem; cp = none; ifl = none }))
      else (do
        avail ← z.processor_counts cpc
        got ←
            lift
              (compute_cpus cpu (record { cp = or_zero p.cpus_cp; ifl = or_zero p.cpus_ifl }) avail)
        pure (some (record { mem = mem; cp = some got.cp; ifl = some got.ifl })))

  unfoldable pub update_resources : Option ResourceArgs → Guest z → Method z.World (Unit {0})
  update_resources none g = pure tt
  update_resources (some args) (partition p) = update_resources_partition z args p
  update_resources (some args) (lpar l) = update_resources_lpar z args l

  -- an LPAR is active before it is loaded
  unfoldable pub ensure_active : Guest z → Method z.World (Unit {0})
  ensure_active (partition p) = z.pull_partition p
  ensure_active (lpar l) = do
    z.pull_lpar l
    status ← z.lpar_status l
    if text_eq status (lit "not-activated")
        then (do own_name ← z.lpar_name l; activate_lpar z l own_name)
        else pure tt

  module _ (fuel : ℕ) where
    -- what `start` does with the guest
    unfoldable pub start_guest :
        z.Cpc → Guest z → ℕ → ℕ → StartParameters → Option t.Event → Method z.World (Unit {0})
    unfolding resource_args update_resources ensure_active load do_netsetup
    start_guest cpc guest cpu memory p notify = do
      args ← resource_args cpc cpu memory p
      update_resources args guest
      ensure_active guest
      load z urlsplit guest p.boot_params
      do_netsetup t fuel guest p.boot_params.netsetup p.boot_params.netboot notify

    unfoldable pub start :
        Text → ℕ → ℕ → StartParameters → Option t.Event → Method (State z) (Unit {0})
    unfolding require_login get_cpc get_guest check_parameters start_guest remote
    start guest_name cpu memory p notify = do
      require_login "You need to login first"
      cpc ← get_cpc
      lift (check_parameters (z.dpm_enabled cpc) cpu p)
      guest ← get_guest cpc guest_name
      remote (start_guest cpc guest cpu memory p notify)

  unfoldable pub stop_guest : Guest z → Method z.World (Unit {0})
  stop_guest (partition p) = do
    status ← z.partition_status p
    if text_eq status (lit "stopped") then pure tt else z.stop_partition p
  stop_guest (lpar l) = z.deactivate l

  unfoldable pub stop : Text → Method (State z) (Unit {0})
  unfolding require_login get_cpc get_guest stop_guest remote
  stop guest_name = do
    require_login "You need to login first"
    cpc ← get_cpc
    guest ← get_guest cpc guest_name
    remote (stop_guest guest)

  -- the last load again, with or without a LUN
  unfoldable pub load_again : z.Lpar → LastUsed → Method z.World (Unit {0})
  load_again l used =
      if text_eq used.logical_unit (lit "0")
      then z.load l used.address
      else z.scsi_load l used.address used.port_name used.logical_unit

  unfoldable pub reboot_guest : Guest z → Method z.World (Unit {0})
  unfolding stop_and_wait deactivate_lpar activate_lpar load_again
  reboot_guest (partition p) = do stop_and_wait z p; z.start_partition p
  reboot_guest (lpar l) = do
    z.pull_lpar l
    used ← z.last_used l
    deactivate_lpar z l
    activate_lpar z l used.profile_name
    load_again l used

  unfoldable pub reboot : Text → Method (State z) (Unit {0})
  unfolding require_login get_cpc get_guest reboot_guest remote
  reboot guest_name = do
    require_login "You need to login first"
    cpc ← get_cpc
    guest ← get_guest cpc guest_name
    remote (reboot_guest guest)
