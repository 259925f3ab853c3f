-- ===== src/Hmc/Boot.antt =====
-- Loading a guest: _normalize_address, _get_svol_uri, _get_dpm_boot_props and _load
-- (hypervisors/hmc/hmc.py). `urlsplit` of the standard library is a parameter.
pub mod Found
use tessia_baselib.Prelude.{
  Bool, true, false, Option, none, some, List, [], ◌∷◌, ◌++◌, Text, String, lit, text_eq, lower,
  contains, take_last, remove_char, if◌then◌else◌,
}
use tessia_baselib.Python.{
  value_error, key_error, not_implemented, Outcome, returned, raised, Method, pure, raise, lift,
  or_raise, option_case, ◌>>=◌, ◌>>◌,
}
use tessia_baselib.Hmc.Client.{
  Value, text, number, flag, null, Properties, Client, Guest, partition, lpar,
}
use tessia_baselib.Hmc.NetSetup.{NetSetup, NetBoot}
use tessia_baselib.Hmc.Resources.{stop_and_wait}

-- `boot_params`
pub record BootParams : Type 0 where
  pub boot_method : Text
  pub devicenr : Option Text
  pub uuid : Option Text
  pub wwpn : Option Text
  pub lun : Option Text
  pub insfile : Option Text
  pub netsetup : Option NetSetup
  pub netboot : Option NetBoot

pub record Url : Type 0 where
  pub hostname : Option Text
  pub username : Option Text
  pub password : Option Text
  pub path : Text

-- address.replace('.', '')[-5:]
unfoldable pub normalize_address : Text → Text
normalize_address address = take_last 5 (remove_char b'.' address)

-- boot_params[key]
unfoldable pub subscript : Option Text → String → Outcome Text
subscript o key = or_raise o (key_error key)

abbrev is_one_of : Text → List Text → Bool
is_one_of t ts = contains ts t

abbrev pub ftp_methods : List Text
ftp_methods = lit "ftp" ∷ (lit "ftps" ∷ (lit "sftp" ∷ []))

-- `value or default`
unfoldable pub or_default : Option Text → Text → Text
or_default none d = d
or_default (some []) d = d
or_default (some (c ∷ cs)) d = c ∷ cs

abbrev or_null : Option Text → Value
or_null none = null
or_null (some t) = text t

handle_value_error : {S A : Type 0} → Outcome A → Method S A
handle_value_error (raised (value_error m)) s = (
  raised (
      not_implemented
        "Load operation on DPM enabled CPCs without storage management firmware feature is not supported"),
  s,
)
handle_value_error r s = (r, s)

-- `try: m` with `except ValueError: raise NotImplementedError`
unfoldable pub or_not_supported : {S A : Type 0} → Method S A → Method S A
unfolding handle_value_error
or_not_supported m s = let (r, s') = m s in handle_value_error r s'

module _ (z : Client) where
  -- the loop over the volumes of a storage group
  unfoldable pub find_volume : Text → Text → List z.Volume → Method z.World (Option Text)
  find_volume key wanted [] = pure none
  find_volume key wanted (v ∷ vs) = do
    found ← z.volume_property v key
    option_case found (find_volume key wanted vs) λ value.
        if text_eq (lower value) (lower wanted)
        then (do
          used ← z.volume_property v (lit "usage")
          usage ← lift (subscript used "usage")
          if text_eq usage (lit "boot")
              then pure tt
              else z.update_volume v ((lit "usage", text (lit "boot")) ∷ [])
          uri ← z.element_uri v
          pure (some uri))
        else find_volume key wanted vs

  -- the loop over the storage groups of a partition
  unfoldable pub find_in_groups : Text → Text → Text → List z.Group → Method z.World Text
  unfolding find_volume
  find_in_groups type key wanted [] =
      raise (value_error "Storage volume <{}:{}> not found or not attached to partition")
  find_in_groups type key wanted (g ∷ gs) = do
    actual ← z.group_type g
    if text_eq (lower actual) type
        then (do
          volumes ← z.volumes g
          found ← find_volume key wanted volumes
          option_case found (find_in_groups type key wanted gs) pure)
        else find_in_groups type key wanted gs

  unfoldable pub get_svol_uri : z.Partition → BootParams → Method z.World Text
  unfolding find_in_groups
  get_svol_uri p boot =
      if text_eq boot.boot_method (lit "scsi")
      then (do
        uuid ← lift (subscript boot.uuid "uuid")
        groups ← z.storage_groups p
        find_in_groups (lit "fcp") (lit "uuid") uuid groups)
      else (do
        devicenr ← lift (subscript boot.devicenr "devicenr")
        groups ← z.storage_groups p
        find_in_groups (lit "fc") (lit "device-number") devicenr groups)

  module _ (urlsplit : Text → Url) where
    -- the properties for a file on a server, by the method and the value of 'insfile'
    abbrev pub ftp_entries : Text → Option Text → Outcome Properties
    ftp_entries boot_method none = raised (key_error "insfile")
    ftp_entries boot_method (some insfile) =
        let url = urlsplit (boot_method ++ (lit "://" ++ insfile)) in
        returned (
          (lit "boot-device", text boot_method)
          ∷ ((lit "boot-ftp-host", or_null url.hostname)
              ∷ ((lit "boot-ftp-username", text (or_default url.username (lit "anonymous")))
                  ∷ ((lit "boot-ftp-password", text (or_default url.password (lit "anonymous")))
                      ∷ ((lit "boot-ftp-insfile", text url.path) ∷ [])))))

    unfoldable pub ftp_props : BootParams → Outcome Properties
    ftp_props boot = ftp_entries boot.boot_method boot.insfile

    unfoldable pub get_dpm_boot_props : z.Partition → BootParams → Method z.World Properties
    unfolding ftp_props get_svol_uri
    get_dpm_boot_props p boot =
        if is_one_of boot.boot_method (lit "dasd" ∷ (lit "scsi" ∷ []))
        then (do
          or_not_supported (z.feature_enabled p (lit "dpm-storage-management"))
          uri ← get_svol_uri p boot
          pure (
              (lit "boot-device", text (lit "storage-volume"))
              ∷ ((lit "boot-storage-volume", text uri) ∷ [])))
        else if is_one_of boot.boot_method ftp_methods
        then lift (ftp_props boot)
        else pure []

    unfoldable pub load_partition : z.Partition → BootParams → Method z.World (Unit {0})
    unfolding get_dpm_boot_props stop_and_wait
    load_partition p boot = do
      update_props ← get_dpm_boot_props p boot
      elim update_props [
        | [] ↦ pure tt
        | u ∷ us ↦ (do stop_and_wait z p; z.update_partition p (u ∷ us); z.start_partition p)
      ]

    -- the arguments are evaluated before the call
    unfoldable pub load_lpar : z.Lpar → BootParams → Method z.World (Unit {0})
    load_lpar l boot =
        if text_eq boot.boot_method (lit "scsi")
        then (do
          devicenr ← lift (subscript boot.devicenr "devicenr")
          wwpn ← lift (subscript boot.wwpn "wwpn")
          lun ← lift (subscript boot.lun "lun")
          z.scsi_load l (normalize_address devicenr) wwpn lun)
        else if text_eq boot.boot_method (lit "dasd")
        then (do
          devicenr ← lift (subscript boot.devicenr "devicenr")
          z.load l (normalize_address devicenr))
        else if text_eq boot.boot_method (lit "nvme")
        then (do
          devicenr ← lift (subscript boot.devicenr "devicenr")
          z.post_nvme_load l (
              (lit "load-parameter", text [])
              ∷ ((lit "secure-boot", flag false)
                  ∷ ((lit "clear-indicator", flag true)
                      ∷ ((lit "disk-partition-id", number 0)
                          ∷ ((lit "force", flag true)
                              ∷ ((lit "load-address", text devicenr) ∷ [])))))))
        else if is_one_of boot.boot_method ftp_methods
        then raise (value_error "{} boot is only available in DPM mode")
        else pure tt

    unfoldable pub load : Guest z → BootParams → Method z.World (Unit {0})
    unfolding load_partition load_lpar
    load guest boot =
        if text_eq boot.boot_method (lit "none")
        then pure tt
        else elim guest [ partition p ↦ load_partition p boot | lpar l ↦ load_lpar l boot ]
