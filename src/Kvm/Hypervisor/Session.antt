-- ===== src/Kvm/Hypervisor/Session.antt =====
-- The session of a KVM hypervisor: what its methods do before login, after a failed login, and after
-- logoff (kvm/kvm.py).
use tessia_baselib.Prelude.{ℕ, ◌≡◌, refl, ap, true, false, Option, none, Text}
use tessia_baselib.Python.{
  Error, runtime_error, attribute_error, Outcome, returned, raised, Method, modify, ◌>>=◌,
}
use tessia_baselib.Python.Rules.{Post, Triple, Triple-bind, Triple-call}
use tessia_baselib.Linux.Host.{Host}
use tessia_baselib.Kvm.Virsh
use tessia_baselib.Kvm.Hypervisor.{
  GuestParameters, Connection, HypervisorKvm, State, init, on_host, with_virsh, test_logged_in,
  login, logoff, start, stop_defined, reboot, stop,
}

module _ (h : Host) (c : Connection h) where
  -- `m` raises `e` and leaves everything as it was.
  abbrev pub Refuses : {A : Type 0} → Error → Method (State h c) A → State h c → Type 0
  Refuses e m s = m s ≡ (raised e, s)

  -- Without a connection object, every operation on guests and logoff raise "You must login first" and
  -- change nothing.
  login_first :
      (v : Option (Virsh.Virsh h)) (w : h.World) (guest_name : Text) (cpu memory : ℕ)
      (parameters : GuestParameters)
      → let s : State h c = (record { host_conn = false; virsh = v }, w) in
        Refuses
          (runtime_error "You must login first")
          (start h c guest_name cpu memory parameters)
          s
        × Refuses (runtime_error "You must login first") (stop h c guest_name) s
        × Refuses (runtime_error "You must login first") (reboot h c guest_name) s
        × Refuses (runtime_error "You must login first") (logoff h c) s
  unfolding start stop reboot stop_defined logoff test_logged_in ◌>>=◌
  login_first v w guest_name cpu memory parameters = (refl, refl, refl, refl)

  abbrev pub half_open : HypervisorKvm h c
  half_open = record { host_conn = true; virsh = none }

  -- When the login of a new hypervisor object raises, the object keeps the connection that failed: each
  -- operation on guests, and logoff, then passes the test for a login and raises AttributeError.
  pub failed_login :
      (timeout : ℕ) (w w' : h.World) (e : Error) (guest_name : Text) (cpu memory : ℕ)
      (parameters : GuestParameters)
      → c.login timeout w ≡ (raised e, w')
      → (login h c timeout (init h c, w) ≡ (raised e, (half_open, w')))
        × Refuses
            (attribute_error "'NoneType' object has no attribute")
            (start h c guest_name cpu memory parameters)
            (half_open, w')
        × Refuses
            (attribute_error "'NoneType' object has no attribute")
            (stop h c guest_name)
            (half_open, w')
        × Refuses
            (attribute_error "'NoneType' object has no attribute")
            (logoff h c)
            (half_open, w')
  unfolding login start stop stop_defined logoff test_logged_in with_virsh on_host ◌>>=◌
  failed_login timeout w w' e guest_name cpu memory parameters l = (rw l refl, refl, refl, refl)

  on_host-none :
      {A : Type 0} (m : Method h.World A)
      → Triple (λ s. s.0.virsh ≡ none) (on_host h c m) (λ a s. s.0.virsh ≡ none) (λ e s. Unit)
  unfolding on_host
  on_host-none {A} m = record { at = λ s p. go s.0 p (m s.1).0 (m s.1).1 }
    where
      go :
          (k : HypervisorKvm h c)
          → k.virsh ≡ none
          → (r : Outcome A) (w : h.World)
          → Post {S = State h c} (λ a s. s.0.virsh ≡ none) (λ e s. Unit) r (k, w)
      go k p (returned a) w = p
      go k p (raised e) w = tt

  -- A logoff that returns leaves the object as it was before the first login.
  pub logoff-init : Triple (λ s. Unit) (logoff h c) (λ u s. s.0 ≡ init h c) (λ e s. Unit)
  unfolding logoff modify
  logoff-init = Triple-bind _ _ (Triple-call (test_logged_in h c) λ e s s' p k. tt) λ u.
      Triple-bind _ _ (Triple-call (with_virsh h c (Virsh.close h)) λ e s s' p k. tt) λ u'.
        Triple-bind {R = λ a s. s.0.virsh ≡ none} _ _ (record { at = λ s p. refl })
          λ x.
            Triple-bind _ _ (on_host-none c.logoff)
              λ y. record { at = λ s p. ap (λ v. record { host_conn = false; virsh = v }) p }
