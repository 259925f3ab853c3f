-- ===== src/Zvm/Checks.antt =====
-- What `start` and `stop` refuse before the guest is touched (hypervisors/zvm/zvm.py).
use tessia_baselib.Prelude.{
  ℕ, ◌≡◌, refl, Bool, true, false, none, List, [], ◌∷◌, String, Text, lit, text_eq, text_eq_refl,
  upper, All,
}
use tessia_baselib.Python.{value_error, raised, Method, ◌>>=◌}
use tessia_baselib.Cms.{Terminal}
use tessia_baselib.Zvm.{ZvmVolume, ZvmParameters, boot_volume, check_boot, check_name, start}

-- Why a guest cannot be started.
pub data Refused (user guest_name : Text) (p : ZvmParameters) : Type 0 where
  other_name : text_eq (upper guest_name) user ≡ false → Refused user guest_name p
  no_boot_device :
      p.boot_method ≡ lit "disk"
      → All (λ v. v.boot_device ≡ false) p.storage_volumes
      → Refused user guest_name p
  no_netboot : p.boot_method ≡ lit "network" → p.netboot ≡ none → Refused user guest_name p

boot_volume-none :
    (vs : List ZvmVolume) → All (λ v. v.boot_device ≡ false) vs → boot_volume vs ≡ none
unfolding boot_volume
boot_volume-none [] h = refl
boot_volume-none (v ∷ vs) h = rw h.0 (boot_volume-none vs h.1)

network_not_disk : text_eq (lit "network") (lit "disk") ≡ false
unfolding text_eq lit
network_not_disk = refl

module _ (t : Terminal) (push_file : Text → Text → Method t.World (Unit {0}))
    (temporary : Text → Text) (user : Text) (no_profile : Bool) where
  abbrev name_message : String
  name_message =
      "On z/VM the guest name provided must be the same as the username specified for login"

  -- `m` raises ValueError and leaves the guest as it was.
  abbrev pub RefusesValue : {A : Type 0} → Method t.World A → t.World → Type 0
  RefusesValue m w = (message : String) × (m w ≡ (raised (value_error message), w))

  named :
      (guest_name : Text) (cpu memory : ℕ) (p : ZvmParameters) (w : t.World) (message : String)
      → check_boot p ≡ raised (value_error message)
      → (b : Bool) → text_eq (upper guest_name) user ≡ b
      → RefusesValue (start t push_file temporary user no_profile guest_name cpu memory p) w
  unfolding start check_name ◌>>=◌
  named guest_name cpu memory p w message h true e = (message, rw (e, h) refl)
  named guest_name cpu memory p w message h false e = (name_message, rw e refl)

  -- Where the guest's name is not the user's, or the boot is from disk and no volume is the boot device, or
  -- it is from the network and no netboot parameters are given: start raises ValueError before any command
  -- is sent.
  pub start_refuses :
      (guest_name : Text) (cpu memory : ℕ) (p : ZvmParameters) (w : t.World)
      → Refused user guest_name p
      → RefusesValue (start t push_file temporary user no_profile guest_name cpu memory p) w
  unfolding start check_name check_boot ◌>>=◌
  start_refuses guest_name cpu memory p w (other_name e) = (name_message, rw e refl)
  start_refuses guest_name cpu memory p w (no_boot_device e h) =
      named guest_name cpu memory p w "Boot method 'disk' requires a boot device"
        (rw (e, text_eq_refl (lit "disk"), boot_volume-none p.storage_volumes h) refl)
        (text_eq (upper guest_name) user) refl
  start_refuses guest_name cpu memory p w (no_netboot e h) =
      named guest_name cpu memory p w "Boot method 'network' requires netboot parameters"
        (rw (e, network_not_disk, text_eq_refl (lit "network"), h) refl)
        (text_eq (upper guest_name) user) refl
