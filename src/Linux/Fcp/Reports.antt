-- ===== src/Linux/Fcp/Reports.antt =====
-- How the methods of DiskFcp can end: no IndexError, no TypeError and no KeyError.
use tessia_baselib.Prelude.{
  ap, Bool-cases, inl, inr, ◌==◌, ◌≡◌, ◌≢◌, refl, Bool, true, false, not, ◌&&◌, ◌||◌, Option, none,
  some, List, [], ◌∷◌, String, Text, lit, text_eq, text_eq_refl, strip, starts_with, IsWord,
  last-split-IsWord, last-split-strip, arith, if◌then◌else◌, All,
}
use tessia_baselib.Python.{runtime_error, raise, lift}
use tessia_baselib.Volume.{Adapter}
use tessia_baselib.Linux.Host.{Host}
use tessia_baselib.Linux.Disk.{device_times, enable_device, unless_found}
use tessia_baselib.Linux.Gives.{
  Gives, Any, Found, Gives-pure, Gives-raise, Gives-if, Gives-lift, Gives-except, Gives-bind,
  Gives-poll, IsConnection, Gives-succeeds, Gives-timer,
}
use tessia_baselib.Linux.Fcp.Maps.{enable_adapters}
use tessia_baselib.Linux.Fcp.Paths.{
  is_empty, last_word, kernel_device, device_found, get_scsi_dev_filename, is_wwpn_active,
  activate_wwpn, check_adapter_active, is_lun_active, lun_up, lun_failed, activate_lun, enable_path,
  enable_paths, enable_lun_paths,
}

not_empty : (t : Text) → is_empty t ≡ false → t ≢ []
unfolding is_empty
not_empty [] h e = cc
not_empty (c ∷ cs) h e = cc

second_false : (a b c : Bool) → (a || b || c) ≡ false → b ≡ false
second_false a true c h = ground arith
second_false a false c h = refl

-- The last word of a stripped output that is not empty.
last_word-Gives :
    {W : Type 0} (t : Text)
    → is_empty (strip t) ≡ false
    → Gives {W = W} IsWord (lift (last_word (strip t)))
unfolding last_word
last_word-Gives t h =
    let (w, e) = last-split-strip t (not_empty (strip t) h) in
    Gives-lift (last_word (strip t)) w (rw e) (last-split-IsWord (strip t) w e)

-- What a kernel device is called: a word, but not "-".
pub record IsDevice (name : Text) : Type 0 where
  pub word : IsWord name
  pub not_dash : name ≢ lit "-"

IsDevice-or_none :
    (name : Text)
    → IsWord name
    → Found IsDevice (if text_eq name (lit "-") then none else some name)
IsDevice-or_none name w = elim (Bool-cases (text_eq name (lit "-"))) [
  | inl dash ↦ rw dash tt
  | inr other ↦
      rw other
        (record { word = w; not_dash = λ e. cc (other, text_eq_refl name, ap (text_eq name) e) })
]

-- An adapter as the schema of a volume demands it: with a devno and a list of wwpns.
pub record IsFormed (a : Adapter) : Type 0 where
  pub devno : Text
  pub wwpns : List Text
  pub has_devno : a.devno ≡ some devno
  pub has_wwpns : a.wwpns ≡ some wwpns

module _ (h : Host) (c : IsConnection h) (shell : h.Shell) where
  kernel_device-Gives : (p : Text) → Gives (Found IsDevice) (kernel_device h shell p)
  unfolding kernel_device
  kernel_device-Gives p = Gives-bind _ _ (c.run_reports shell _) λ r t.
      Gives-if _ _ _
        (λ good.
          Gives-bind _ _ (last_word-Gives r.1 (ground arith))
            λ name w. Gives-pure _ (IsDevice-or_none name w))
        (λ bad. Gives-pure none tt)

  device_found-Gives :
      (o : Option Text) → Found IsDevice o → Gives IsDevice (device_found h shell o)
  unfolding device_found
  device_found-Gives none f = Gives-raise _
  device_found-Gives (some name) f = Gives-pure name f

  -- The kernel device that `_get_scsi_dev_filename` returns is a word, and not the "-" that lsscsi
  -- prints for a path without a device; otherwise it raises RuntimeError or what the connection raised.
  pub get_scsi_dev_filename-Gives :
      (devno wwpn lun : Text) → Gives IsDevice (get_scsi_dev_filename h shell devno wwpn lun)
  unfolding get_scsi_dev_filename
  get_scsi_dev_filename-Gives devno wwpn lun = Gives-bind _ _ (c.run_reports shell _) λ r t.
      Gives-if (not (r.0 == 0) || is_empty (strip r.1) || starts_with (strip r.1) (lit "Error:")) _
        _ (λ bad. Gives-raise _)
        (λ good. Gives-bind _ _ (last_word-Gives r.1 (second_false _ _ _ good)) λ path w.
          Gives-bind _ _ (Gives-poll h device_times _ (kernel_device-Gives path))
            device_found-Gives)

  is_wwpn_active-Gives : (devno wwpn : Text) → Gives Any (is_wwpn_active h shell devno wwpn)
  unfolding is_wwpn_active
  is_wwpn_active-Gives devno wwpn = Gives-bind _ _ (c.run_reports shell _) λ r t. Gives-pure _ tt

  activate_wwpn-Gives : (devno wwpn : Text) → Gives Any (activate_wwpn h shell devno wwpn)
  unfolding activate_wwpn
  activate_wwpn-Gives devno wwpn =
      Gives-bind _ _ (c.run_reports shell _)
        λ r t. Gives-bind _ _ (c.run_reports shell _) λ r' t'. Gives-timer h c shell _ _ _ _

  is_lun_active-Gives : (devno wwpn lun : Text) → Gives Any (is_lun_active h shell devno wwpn lun)
  unfolding is_lun_active
  is_lun_active-Gives devno wwpn lun =
      Gives-except _ _
        (Gives-bind _ _ (get_scsi_dev_filename-Gives devno wwpn lun) λ d t. Gives-pure true tt)
        (Gives-pure false tt)

  lun_up-Gives : (devno wwpn lun : Text) → Gives (Found Any) (lun_up h shell devno wwpn lun)
  unfolding lun_up
  lun_up-Gives devno wwpn lun =
      Gives-except _ _
        (Gives-bind _ _ (get_scsi_dev_filename-Gives devno wwpn lun) λ d t. Gives-pure (some tt) tt)
        (Gives-pure none tt)

  lun_failed-Gives :
      (devno wwpn lun : Text) (o : Option (Unit {0}))
      → Found Any o
      → Gives Any (lun_failed h shell devno wwpn lun o)
  unfolding lun_failed
  lun_failed-Gives devno wwpn lun (some u) f = Gives-pure tt tt
  lun_failed-Gives devno wwpn lun none f = Gives-bind _ _ (c.run_reports shell _) λ r t.
      Gives-if (r.0 == 0 && text_eq (strip r.1) (lit "1")) (raise _) (raise _) (λ a. Gives-raise _)
        (λ b. Gives-raise _)

  activate_lun-Gives : (devno wwpn lun : Text) → Gives Any (activate_lun h shell devno wwpn lun)
  unfolding activate_lun
  activate_lun-Gives devno wwpn lun = Gives-bind _ _ (c.run_reports shell _) λ r t.
      Gives-bind _ _
        (Gives-if {Q = Any} (r.0 == 0) _ (raise _) (λ a. Gives-pure tt tt) (λ b. Gives-raise _))
        λ u t'.
          Gives-bind _ _ (Gives-poll h device_times _ (lun_up-Gives devno wwpn lun))
            (lun_failed-Gives devno wwpn lun)

  enable_path-Gives : (devno lun wwpn : Text) → Gives Any (enable_path h shell devno lun wwpn)
  unfolding enable_path
  enable_path-Gives devno lun wwpn = Gives-bind _ _ (is_wwpn_active-Gives devno wwpn) λ port t.
      Gives-bind _ _
        (Gives-if {Q = Any} _ _ _ (λ a. Gives-pure tt tt) (λ b. activate_wwpn-Gives devno wwpn))
        λ u t'. Gives-bind _ _ (is_lun_active-Gives devno wwpn lun) λ unit t''.
          Gives-if _ _ _ (λ a. Gives-pure tt tt) (λ b. activate_lun-Gives devno wwpn lun)

  enable_paths-Gives :
      (devno lun : Text) (wwpns : List Text) → Gives Any (enable_paths h shell devno lun wwpns)
  unfolding enable_paths
  enable_paths-Gives devno lun [] = Gives-pure tt tt
  enable_paths-Gives devno lun (w ∷ ws) =
      Gives-bind _ _ (enable_path-Gives devno lun w) λ u t. enable_paths-Gives devno lun ws

  unless_found-Gives :
      (m : String) (o : Option (Unit {0}))
      → Found Any o
      → Gives Any (unless_found h (runtime_error m) o)
  unfolding unless_found
  unless_found-Gives m none f = Gives-raise m
  unless_found-Gives m (some u) f = Gives-pure tt tt

  enable_device-Gives : (devno : Text) → Gives Any (enable_device h shell devno)
  unfolding enable_device unless_found
  enable_device-Gives devno = Gives-bind _ _ (c.run_reports shell _) λ r t.
      Gives-bind _ _ (Gives-poll h device_times _ (Gives-succeeds h c shell _))
        (unless_found-Gives _)

  check_adapter_active-Gives : (devno : Text) → Gives Any (check_adapter_active h shell devno)
  unfolding check_adapter_active
  check_adapter_active-Gives devno = Gives-timer h c shell _ _ _ _

  enable_lun_paths-Gives :
      (lun : Text) (a : Adapter) → IsFormed a → Gives Any (enable_lun_paths h shell lun a)
  unfolding enable_lun_paths
  enable_lun_paths-Gives lun a f =
      Gives-bind _ _ (Gives-lift {Q = Any} _ f.devno (rw f.has_devno) tt) λ devno t.
        Gives-bind _ _ (enable_device-Gives devno) λ u t'.
          Gives-bind _ _ (check_adapter_active-Gives devno) λ u' t''.
            Gives-bind _ _ (Gives-lift {Q = Any} _ f.wwpns (rw f.has_wwpns) tt)
              λ wwpns t. enable_paths-Gives devno lun wwpns

  pub enable_adapters-Gives :
      (lun : Text) (as' : List Adapter)
      → All IsFormed as'
      → Gives Any (enable_adapters h shell lun as')
  unfolding enable_adapters
  enable_adapters-Gives lun [] f = Gives-pure tt tt
  enable_adapters-Gives lun (a ∷ as') f =
      Gives-bind _ _ (enable_lun_paths-Gives lun a f.0) λ u t. enable_adapters-Gives lun as' f.1
