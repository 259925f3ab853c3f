-- ===== src/Cms.antt =====
-- GuestCms (tessia/baselib/guests/cms/cms.py): the CMS guest on a terminal. The terminal, `re.search` and
-- `urlsplit` are parameters; push_file is not modelled.
pub mod LastCpu
pub mod Cpus
mod Tests
use tessia_baselib.Prelude.{
  ℕ, zero, suc, ◌+◌, ◌==◌, ltb, leb, Bool, true, false, not, ◌&&◌, ◌||◌, Option, none, some, List,
  [], ◌∷◌, ◌++◌, String, Text, lit, text_eq, contains, upper, split_on, decimal, if◌then◌else◌,
}
use tessia_baselib.Python.{
  Error, runtime_error, value_error, type_error, key_error, not_implemented, out_of_fuel, Outcome,
  returned, raised, Method, pure, raise, lift, option_case, ◌>>=◌, ◌>>◌,
}
use tessia_baselib.Hmc.NetSetup.Channels.{from_hex, hex_text}

-- re_match: its pattern, and what was matched
pub record Match : Type 0 where
  pub pattern : Text
  pub group : Text

pub record Terminal : Type 1 where
  pub World : Type 0
  -- send_cmd(cmd, wait_for=…, timeout=…) with its output
  pub send_cmd : Text → List Text → Method World (Text × Option Match)
  -- send_cmd(cmd, use_cp=True)
  pub send_cp : Text → List Text → Method World (Text × Option Match)
  pub login : ℕ → Method World Text
  pub logoff : Method World (Unit {0})
  pub disconnect : Method World (Unit {0})
  -- re.search(cpu_msg, line) and its first group
  pub cpu_of : Text → Option Text

-- ERROR_REGEX
abbrev pub error_regex : Text
error_regex = lit "HCP([a-zA-Z]{0,8})\\d{1,4}([E]{1})( .*)?"

abbrev pub cpu_msg : Text
cpu_msg = lit "(?i) CPU ([0-9A-Fa-f]+)"

abbrev pub attach_msg : Text
attach_msg = lit "(?i)cpu [0-9A-Fa-f]+ defined"

-- the match, if there is one and it is not of an error
unfoldable pub expect : String → String → Option Match → Outcome Match
expect unexpected failed none = raised (runtime_error unexpected)
expect unexpected failed (some m) =
    if text_eq m.pattern error_regex then raised (runtime_error failed) else returned m

-- dev_id.split('.')[-1]
unfoldable pub last_part : Text → Text
last_part t = last_of (split_on b'.' t)
  where
    last_of : List Text → Text
    last_of [] = []
    last_of (u ∷ []) = u
    last_of (u ∷ (v ∷ vs)) = last_of (v ∷ vs)

-- an entry of `vols`
pub record CmsVolume : Type 0 where
  pub type : Text
  pub devno : Option Text
  pub adapters : Option (List Text)

-- an entry of `ifaces`
pub record CmsIface : Type 0 where
  pub id : Text
  pub type : Text
  pub count : Option ℕ
  pub system : Option Text

module _ (t : Terminal) (name : Text) where
  -- the last line with the number of a cpu
  unfoldable pub last_cpu : List Text → Option Text → Option Text
  last_cpu [] found = found
  last_cpu (l ∷ ls) found = last_cpu ls (option_case (t.cpu_of l) found some)

  unfoldable pub define_cpu : ℕ → Method t.World Match
  unfolding expect
  define_cpu addr = do
    answer ← t.send_cmd (lit "define cpu " ++ hex_text addr) (attach_msg ∷ (error_regex ∷ []))
    lift
        (expect "Define CPU(s) returned unexpected output" "Define CPU(s) failed with: {}" answer.1)

  -- the loop of `while cpu_addr <= last_cpu_addr`, with at most `fuel` rounds
  unfoldable pub define_cpus : ℕ → ℕ → ℕ → ℕ → Method t.World (Unit {0})
  unfolding define_cpu
  define_cpus zero addr last cpus = raise out_of_fuel
  define_cpus (suc fuel) addr last cpus =
      if leb addr last && not (cpus == 0)
      then (do define_cpu addr; define_cpus fuel (addr + 1) last cpus)
      else pure tt

  -- int(last_cpu, base=16)
  unfoldable pub cpu_number : Option Text → Outcome ℕ
  cpu_number none = raised (type_error "int() can't convert non-string with explicit base")
  cpu_number (some u) =
      option_case (from_hex u) (raised (value_error "invalid literal for int() with base 16"))
        returned

  unfoldable pub attach_cpu : ℕ → Method t.World (Unit {0})
  unfolding expect last_cpu cpu_number define_cpus
  attach_cpu cpus = do
    answer ← t.send_cmd (lit "q v cpus") (error_regex ∷ (cpu_msg ∷ []))
    lift (expect "Query CPUs returned unexpected output" "Query CPUs failed with: {}" answer.1)
    last ← lift (cpu_number (last_cpu (split_on 10 answer.0) none))
    define_cpus (suc cpus) (last + 1) (if ltb 1 cpus then last + cpus else last + 1) cpus

  query_msgs : Text → Text → List Text
  query_msgs dev_type dev_id =
      if text_eq dev_type (lit "pci")
      then lit "(?i) A PCI function was not found"
        ∷ ((lit "(?i) PCIF 0*" ++ (dev_id ++ lit " ON ")) ∷ [])
      else (lit "(?i) " ++ (dev_id ++ lit "( ON| .* ON) ")) ∷ []

  -- the type in the two commands
  cp_type : Text → Text
  cp_type dev_type = if text_eq dev_type (lit "pci") then lit "pcif" else []

  last_msg : List Text → Text
  last_msg [] = []
  last_msg (m ∷ []) = m
  last_msg (m ∷ (n ∷ ns)) = last_msg (n ∷ ns)

  unfoldable pub attach_dev : Text → Text → Method t.World (Unit {0})
  unfolding expect query_msgs cp_type last_msg
  attach_dev dev_id dev_type = do
    let msgs = query_msgs dev_type dev_id
    answer ←
        t.send_cmd (lit "q v " ++ (cp_type dev_type ++ (lit " " ++ dev_id))) (error_regex ∷ msgs)
    found ← lift (
        option_case answer.1 (raised (runtime_error "Query device {} returned unexpected output"))
          returned)
    if text_eq found.pattern (last_msg msgs) then pure tt else (do
      let attached_msg = lit "(?i)" ++ (dev_id ++ (lit " attached to " ++ name))
      let already_msg = lit "(?i)" ++ (dev_id ++ (lit " already attached to " ++ name))
      attached ←
          t.send_cmd (lit "att " ++ (cp_type dev_type ++ (lit " " ++ (dev_id ++ lit " *"))))
            (attached_msg ∷ (already_msg ∷ (error_regex ∷ [])))
      lift (
          option_case attached.1
            (raised (runtime_error "Attach device {} returned unexpected output"))
            λ m.
              if contains (attached_msg ∷ (already_msg ∷ [])) m.pattern
              then returned tt
              else raised (runtime_error "Attach device {} failed with: {}")))

  unfoldable pub define_nic : Text → Text → ℕ → Text → Method t.World (Unit {0})
  unfolding expect
  define_nic address dev_type dev_count target_system = do
    defined ←
        t.send_cmd
          (lit "define nic "
            ++ (address ++ (lit " " ++ (dev_type ++ (lit " devices " ++ decimal dev_count)))))
          ((lit "(?i)NIC "
              ++ (address ++ (lit " is created; devices " ++ (address ++ lit "-.+ defined"))))
            ∷ (error_regex ∷ []))
    lift (
        expect "Define device {} returned unexpected output" "Define device {} failed with: {}"
          defined.1)
    coupled ←
        t.send_cmd (lit "couple " ++ (address ++ (lit " to SYSTEM " ++ target_system)))
          ((lit "(?i)NIC " ++ (address ++ lit " is connected to SYSTEM")) ∷ (error_regex ∷ []))
    lift (
        expect "Couple nic {} returned unexpected output" "Couple nic {} failed with: {}" coupled.1)
    pure tt

  unfoldable pub attach_channels : List Text → Method t.World (Unit {0})
  unfolding attach_dev
  attach_channels [] = pure tt
  attach_channels (c ∷ cs) = do attach_dev c (lit "ccw"); attach_channels cs

  unfoldable pub attach_iface : CmsIface → Method t.World (Unit {0})
  unfolding attach_channels attach_dev define_nic
  attach_iface i =
      if contains (lit "osa" ∷ (lit "hsi" ∷ [])) i.type
      then attach_channels (split_on b',' i.id)
      else if text_eq i.type (lit "pci")
      then attach_dev i.id (lit "pci")
      else if contains (lit "hiper" ∷ (lit "qdio" ∷ (lit "iedn" ∷ (lit "inmn" ∷ [])))) i.type
      then (do
        count ← lift (option_case i.count (raised (key_error "count")) returned)
        system ← lift (option_case i.system (raised (key_error "system")) returned)
        define_nic i.id i.type count system)
      else raise (value_error "Unsupported network interface type '{}'")

  unfoldable pub attach_adapters : List Text → Method t.World (Unit {0})
  unfolding attach_dev last_part
  attach_adapters [] = pure tt
  attach_adapters (a ∷ as') = do attach_dev (last_part a) (lit "ccw"); attach_adapters as'

  unfoldable pub attach_vol : CmsVolume → Method t.World (Unit {0})
  unfolding attach_adapters attach_dev last_part
  attach_vol v =
      if text_eq v.type (lit "fcp")
      then (do
        adapters ← lift (option_case v.adapters (raised (key_error "adapters")) returned)
        attach_adapters adapters)
      else (do
        devno ← lift (option_case v.devno (raised (key_error "devno")) returned)
        attach_dev (last_part devno) (lit "ccw"))

  unfoldable pub attach_vols : List CmsVolume → Method t.World (Unit {0})
  unfolding attach_vol
  attach_vols [] = pure tt
  attach_vols (v ∷ vs) = do attach_vol v; attach_vols vs

  unfoldable pub attach_ifaces : List CmsIface → Method t.World (Unit {0})
  unfolding attach_iface
  attach_ifaces [] = pure tt
  attach_ifaces (i ∷ is) = do attach_iface i; attach_ifaces is

  -- no cpus where there are none to attach or fewer than none; memory is not supported
  unfoldable pub hotplug : ℕ → ℕ → List CmsVolume → List CmsIface → Method t.World (Unit {0})
  unfolding attach_cpu attach_vols attach_ifaces
  hotplug cpu memory vols ifaces = do
    if cpu == 0 then pure tt else attach_cpu cpu
    if memory == 0 then pure tt else raise (not_implemented "")
    attach_vols vols
    attach_ifaces ifaces

  -- no_profile, or what the extensions say
  unfoldable pub ipl_cms : Bool → Method t.World (Unit {0})
  ipl_cms no_profile = do
    booted ← t.send_cp (lit "i cms") (lit "z/VM" ∷ [])
    lift (option_case booted.1 (raised (runtime_error "Failed to IPL CMS")) returned)
    if no_profile
        then (do
          accessed ← t.send_cmd (lit "access (noprof") (lit "Ready;" ∷ [])
          lift (
              option_case accessed.1 (raised (runtime_error "CMS access failed")) λ m. returned tt))
        else pure tt

  unfoldable pub login : Bool → ℕ → Method t.World (Unit {0})
  unfolding ipl_cms
  login no_profile timeout = do
    t.login timeout
    ipl_cms no_profile
    t.send_cp (lit "term more 50 10") []
    pure tt

  unfoldable pub logoff : Method t.World (Unit {0})
  logoff = t.disconnect

  unfoldable pub stop : Method t.World (Unit {0})
  stop = do t.send_cp (lit "system clear") []; t.logoff
