-- ===== src/Hmc/Hypervisor/Keys.antt =====
-- Loading a guest misses no key of the boot parameters (hypervisors/hmc/hmc.py): what start checks,
-- with what the schema of the parameters requires, is enough.
use tessia_baselib.Prelude.{
  ℕ, ◌≡◌, refl, Bool, true, false, Option, none, some, List, [], ◌∷◌, Text, String, lit, lower,
  contains, text_eq, arith,
}
use tessia_baselib.Python.{
  Error, key_error, value_error, Outcome, returned, raised, Method, pure, raise, lift, ◌>>=◌, ◌>>◌,
}
use tessia_baselib.Python.Rules.{
  Post, Triple, Triple-pure, Triple-raise, Triple-if, Triple-option, Triple-bind, Triple-lift,
}
use tessia_baselib.Hmc.Client.{Client, Guest, partition, lpar, Properties}
use tessia_baselib.Hmc.Boot.{
  BootParams, Url, subscript, ftp_methods, find_volume, find_in_groups, get_svol_uri,
  or_not_supported, ftp_entries, ftp_props, get_dpm_boot_props, load_partition, load_lpar, load,
}
use tessia_baselib.Hmc.Resources.{stop_and_wait}
use tessia_baselib.Hmc.Hypervisor.{StartParameters, check_parameters, is_there, is_given}

abbrev pub is_key_error : Error → Bool
is_key_error (key_error k) = true
is_key_error e = false

-- It raises no KeyError.
abbrev pub NoKeyError : {S A : Type 0} → Method S A → Type 0
NoKeyError m = Triple (λ s. Unit) m (λ a s. Unit) (λ e s. is_key_error e ≡ false)

-- What zhmcclient raises is no KeyError, and a volume has a usage.
pub record RaisesOwn (z : Client) : Type 0 where
  pub feature_enabled_own : (p : z.Partition) (f : Text) → NoKeyError (z.feature_enabled p f)
  pub storage_groups_own : (p : z.Partition) → NoKeyError (z.storage_groups p)
  pub group_type_own : (g : z.Group) → NoKeyError (z.group_type g)
  pub volumes_own : (g : z.Group) → NoKeyError (z.volumes g)
  pub volume_property_own : (v : z.Volume) (key : Text) → NoKeyError (z.volume_property v key)
  pub has_usage :
      (v : z.Volume)
      → Triple
          (λ w. Unit)
          (z.volume_property v (lit "usage"))
          (λ o w. is_there o ≡ true)
          (λ e w. is_key_error e ≡ false)
  pub update_volume_own : (v : z.Volume) (ps : Properties) → NoKeyError (z.update_volume v ps)
  pub element_uri_own : (v : z.Volume) → NoKeyError (z.element_uri v)
  pub partition_status_own : (p : z.Partition) → NoKeyError (z.partition_status p)
  pub stop_partition_own : (p : z.Partition) → NoKeyError (z.stop_partition p)
  pub wait_partition_own : (p : z.Partition) (s : Text) → NoKeyError (z.wait_partition p s)
  pub update_partition_own :
      (p : z.Partition) (ps : Properties) → NoKeyError (z.update_partition p ps)
  pub start_partition_own : (p : z.Partition) → NoKeyError (z.start_partition p)
  pub scsi_load_own : (l : z.Lpar) (a b c : Text) → NoKeyError (z.scsi_load l a b c)
  pub load_own : (l : z.Lpar) (a : Text) → NoKeyError (z.load l a)
  pub post_nvme_load_own : (l : z.Lpar) (ps : Properties) → NoKeyError (z.post_nvme_load l ps)

-- What boot_params_type.json requires of the parameters of the methods other than scsi.
pub record IsBootParams (boot : BootParams) : Type 0 where
  pub dasd_device : text_eq boot.boot_method (lit "dasd") ≡ true → is_there boot.devicenr ≡ true
  pub nvme_device : text_eq boot.boot_method (lit "nvme") ≡ true → is_there boot.devicenr ≡ true
  pub ftp_insfile : contains ftp_methods boot.boot_method ≡ true → is_there boot.insfile ≡ true

-- a key that is there can be read
Triple-key :
    {S A : Type 0} (o : Option Text) (key : String) (f : Text → Method S A)
    → is_there o ≡ true
    → ((t : Text) → NoKeyError (f t))
    → NoKeyError (lift (subscript o key) >>= f)
unfolding subscript
Triple-key none key f h k = absurd (cc h)
Triple-key (some t) key f h k = Triple-lift (returned t) f (λ a e. k a) (λ e s x p. absurd (cc x))

module _ {z : Client} (own : RaisesOwn z) where
  skip : {S : Type 0} → NoKeyError {S = S} (pure tt)
  skip = Triple-pure tt λ w k. tt

  find_volume-NoKeyError :
      (key wanted : Text) (vs : List z.Volume) → NoKeyError (find_volume z key wanted vs)
  unfolding find_volume
  find_volume-NoKeyError key wanted [] = Triple-pure none λ w k. tt
  find_volume-NoKeyError key wanted (v ∷ vs) =
      Triple-bind _ _ (own.volume_property_own v key) λ found.
        Triple-option found (find_volume z key wanted vs) _
          (λ e. find_volume-NoKeyError key wanted vs)
          λ value e.
            Triple-if (text_eq (lower value) (lower wanted)) _ (find_volume z key wanted vs)
              (λ y. Triple-bind _ _ (own.has_usage v) λ used. record {
                at = λ w there.
                    (Triple-key used "usage" _ there λ usage.
                        Triple-bind {R = λ u w. Unit} _ _
                          (Triple-if (text_eq usage (lit "boot")) (pure tt) _ (λ b. skip)
                            (λ n. own.update_volume_own v _))
                          λ u.
                            Triple-bind _ _ (own.element_uri_own v)
                              λ uri. Triple-pure (some uri) λ w k. tt).at
                      w tt;
              })
              (λ n. find_volume-NoKeyError key wanted vs)

  find_in_groups-NoKeyError :
      (type key wanted : Text) (gs : List z.Group)
      → NoKeyError (find_in_groups z type key wanted gs)
  unfolding find_in_groups
  find_in_groups-NoKeyError type key wanted [] = Triple-raise _ λ w k. refl
  find_in_groups-NoKeyError type key wanted (g ∷ gs) =
      Triple-bind _ _ (own.group_type_own g) λ actual.
        Triple-if (text_eq (lower actual) type) _ (find_in_groups z type key wanted gs)
          (λ y. Triple-bind _ _ (own.volumes_own g) λ volumes.
            Triple-bind _ _ (find_volume-NoKeyError key wanted volumes) λ found.
              Triple-option found (find_in_groups z type key wanted gs) pure
                (λ e. find_in_groups-NoKeyError type key wanted gs)
                λ uri e. Triple-pure uri λ w k. tt)
          (λ n. find_in_groups-NoKeyError type key wanted gs)

  get_svol_uri-NoKeyError :
      (p : z.Partition) (boot : BootParams)
      → (text_eq boot.boot_method (lit "scsi") ≡ true → is_there boot.uuid ≡ true)
      → (text_eq boot.boot_method (lit "scsi") ≡ false → is_there boot.devicenr ≡ true)
      → NoKeyError (get_svol_uri z p boot)
  unfolding get_svol_uri
  get_svol_uri-NoKeyError p boot uuid device =
      Triple-if (text_eq boot.boot_method (lit "scsi")) _ _
        (λ y. Triple-key boot.uuid "uuid" _ (uuid y) λ wanted.
          Triple-bind _ _ (own.storage_groups_own p)
            λ groups. find_in_groups-NoKeyError (lit "fcp") (lit "uuid") wanted groups)
        (λ n. Triple-key boot.devicenr "devicenr" _ (device n) λ wanted.
          Triple-bind _ _ (own.storage_groups_own p)
            λ groups. find_in_groups-NoKeyError (lit "fc") (lit "device-number") wanted groups)

  or_not_supported-NoKeyError :
      {A : Type 0} (m : Method z.World A) → NoKeyError m → NoKeyError (or_not_supported m)
  unfolding or_not_supported
  or_not_supported-NoKeyError {A} m h = record { at = λ w k. go w (m w).0 (m w).1 refl (h.at w k) }
    where
      go :
          (w : z.World) (r : Outcome A) (w' : z.World)
          → m w ≡ (r, w')
          → Post {S = z.World} (λ a w. Unit) (λ e w. is_key_error e ≡ false) r w'
          → Post {S = z.World}
              (λ a w. Unit)
              (λ e w. is_key_error e ≡ false)
              (or_not_supported m w).0
              (or_not_supported m w).1
      go w (returned a) w' e k = rw e tt
      go w (raised (value_error v)) w' e k = rw e refl
      go w (raised x) w' e k = rw e k

  checked_dpm :
      (cpu : ℕ) (p : StartParameters)
      → check_parameters true cpu p ≡ returned tt
      → text_eq p.boot_params.boot_method (lit "scsi") ≡ true
      → is_there p.boot_params.uuid ≡ true
  unfolding check_parameters
  checked_dpm cpu p h y = ground arith

  given→there : (o : Option Text) → is_given o ≡ true → is_there o ≡ true
  given→there none h = h
  given→there (some t) h = refl

  checked_classic :
      (cpu : ℕ) (p : StartParameters)
      → check_parameters false cpu p ≡ returned tt
      → text_eq p.boot_params.boot_method (lit "scsi") ≡ true
      → (is_given p.boot_params.lun ≡ true)
        × (is_given p.boot_params.wwpn ≡ true)
        × (is_given p.boot_params.devicenr ≡ true)
  unfolding check_parameters
  checked_classic cpu p h y = ground arith

  ftp_entries-NoKeyError :
      (urlsplit : Text → Url) (boot_method : Text) (insfile : Option Text)
      → is_there insfile ≡ true
      → NoKeyError {S = z.World} (lift (ftp_entries z urlsplit boot_method insfile))
  unfolding lift
  ftp_entries-NoKeyError urlsplit boot_method none h = absurd (cc h)
  ftp_entries-NoKeyError urlsplit boot_method (some insfile) h = record { at = λ w k. tt }

  dasd_or_scsi :
      (m : Text)
      → contains (lit "dasd" ∷ (lit "scsi" ∷ [])) m ≡ true
      → text_eq m (lit "scsi") ≡ false
      → text_eq m (lit "dasd") ≡ true
  unfolding contains
  dasd_or_scsi m h n = ground arith

  module _ (urlsplit : Text → Url) where
    stopped-NoKeyError : (p : z.Partition) → NoKeyError (stop_and_wait z p)
    unfolding stop_and_wait
    stopped-NoKeyError p = Triple-bind _ _ (own.partition_status_own p) λ status.
        Triple-if (text_eq status (lit "stopped")) (pure tt) _ (λ y. skip)
          (λ n.
            Triple-bind _ _ (own.stop_partition_own p)
              λ u. own.wait_partition_own p (lit "stopped"))

    get_dpm_boot_props-NoKeyError :
        (p : z.Partition) (boot : BootParams)
        → IsBootParams boot
        → (text_eq boot.boot_method (lit "scsi") ≡ true → is_there boot.uuid ≡ true)
        → NoKeyError (get_dpm_boot_props z urlsplit p boot)
    unfolding get_dpm_boot_props ftp_props
    get_dpm_boot_props-NoKeyError p boot valid uuid =
        Triple-if (contains (lit "dasd" ∷ (lit "scsi" ∷ [])) boot.boot_method) _ _
          (λ y. Triple-bind _ _ (or_not_supported-NoKeyError _ (own.feature_enabled_own p _)) λ b.
            Triple-bind _ _
              (get_svol_uri-NoKeyError p boot uuid
                λ n. valid.dasd_device (dasd_or_scsi boot.boot_method y n))
              λ uri. Triple-pure _ λ w k. tt)
          (λ n.
            Triple-if (contains ftp_methods boot.boot_method) _ (pure [])
              (λ y.
                ftp_entries-NoKeyError urlsplit boot.boot_method boot.insfile (valid.ftp_insfile y))
              (λ n. Triple-pure [] λ w k. tt))

    load_partition-NoKeyError :
        (p : z.Partition) (boot : BootParams)
        → IsBootParams boot
        → (text_eq boot.boot_method (lit "scsi") ≡ true → is_there boot.uuid ≡ true)
        → NoKeyError (load_partition z urlsplit p boot)
    unfolding load_partition
    load_partition-NoKeyError p boot valid uuid =
        Triple-bind _ _ (get_dpm_boot_props-NoKeyError p boot valid uuid) λ props. updated props
      where
        updated :
            (props : Properties)
            → NoKeyError (elim props as (λ x. Method z.World (Unit {0})) [
              | [] ↦ pure tt
              | u ∷ us ↦ (do stop_and_wait z p; z.update_partition p (u ∷ us); z.start_partition p)
            ])
        updated [] = skip
        updated (u ∷ us) =
            Triple-bind _ _ (stopped-NoKeyError p)
              λ x. Triple-bind _ _ (own.update_partition_own p _) λ y. own.start_partition_own p

    load_lpar-NoKeyError :
        (l : z.Lpar) (cpu : ℕ) (p : StartParameters)
        → IsBootParams p.boot_params
        → check_parameters false cpu p ≡ returned tt
        → NoKeyError (load_lpar z urlsplit l p.boot_params)
    unfolding load_lpar
    load_lpar-NoKeyError l cpu p valid checked =
        let boot = p.boot_params in
        Triple-if (text_eq boot.boot_method (lit "scsi")) _ _
          (λ y.
            let (lun, wwpn, device) = checked_classic cpu p checked y in
            Triple-key boot.devicenr "devicenr" _ (given→there boot.devicenr device) λ d.
              Triple-key boot.wwpn "wwpn" _ (given→there boot.wwpn wwpn) λ w.
                Triple-key boot.lun "lun" _ (given→there boot.lun lun)
                  λ u. own.scsi_load_own l _ w u)
          (λ n.
            Triple-if (text_eq boot.boot_method (lit "dasd")) _ _
              (λ y.
                Triple-key boot.devicenr "devicenr" _ (valid.dasd_device y) λ d. own.load_own l _)
              (λ n.
                Triple-if (text_eq boot.boot_method (lit "nvme")) _ _
                  (λ y.
                    Triple-key boot.devicenr "devicenr" _ (valid.nvme_device y)
                      λ d. own.post_nvme_load_own l _)
                  (λ n.
                    Triple-if (contains ftp_methods boot.boot_method) (raise _) (pure tt)
                      (λ y. Triple-raise _ λ w k. refl) (λ n. skip))))

    -- is the CPC of the guest in DPM mode?
    abbrev pub dpm_of : Guest z → Bool
    dpm_of (partition p) = true
    dpm_of (lpar l) = false

    -- For boot parameters that have what the schema requires and pass the checks of start, _load raises no
    -- KeyError, if zhmcclient raises none.
    pub load-NoKeyError :
        (guest : Guest z) (cpu : ℕ) (p : StartParameters)
        → IsBootParams p.boot_params
        → check_parameters (dpm_of guest) cpu p ≡ returned tt
        → NoKeyError (load z urlsplit guest p.boot_params)
    unfolding load
    load-NoKeyError (partition g) cpu p valid checked =
        Triple-if (text_eq p.boot_params.boot_method (lit "none")) (pure tt) _ (λ y. skip)
          (λ n. load_partition-NoKeyError g p.boot_params valid (checked_dpm cpu p checked))
    load-NoKeyError (lpar l) cpu p valid checked =
        Triple-if (text_eq p.boot_params.boot_method (lit "none")) (pure tt) _ (λ y. skip)
          (λ n. load_lpar-NoKeyError l cpu p valid checked)
