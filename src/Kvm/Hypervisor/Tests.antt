-- ===== src/Kvm/Hypervisor/Tests.antt =====
-- Runs of the KVM hypervisor on a small host, and the theorems about it at concrete inputs.
use tessia_baselib.Prelude.{
  ◌*◌, ◌+◌, ℕ, ◌≡◌, refl, none, [], ◌++◌, Text, lit, strip, text_eq, starts_with, ◌==◌,
  if◌then◌else◌,
}
use tessia_baselib.Python.{
  foreign, attribute_error, returned, raised, Method, pure, raise, ◌>>=◌, ◌>>◌,
}
use tessia_baselib.Python.Rules.{Triple}
use tessia_baselib.Linux.Host.{Host}
use tessia_baselib.Kvm.Virsh.{Services, is_defined, is_running, shutdown, virsh_command, close}
use tessia_baselib.Kvm.Virsh.Dominfo.{state_of, parse_dominfo}
use tessia_baselib.Kvm.Hypervisor.{
  GuestParameters, Connection, init, login, logoff, start, stop_defined, stop,
}
use tessia_baselib.Kvm.Hypervisor.Session.{Refuses, half_open, failed_login, logoff-init}

-- A domain that runs if the first number is 1, and a clock; it is defined in any case.
abbrev answer : Text → ℕ → (ℕ × Text) × ℕ
answer cmd w =
    if starts_with cmd (lit "virsh dominfo")
    then ((0, if w == 1 then lit "State:   running" else lit "State:   shut off"), w)
    else if starts_with cmd (lit "virsh shutdown")
    then ((0, []), 0)
    else if starts_with cmd (lit "virsh start")
    then ((0, []), 1)
    else ((0, []), w)

abbrev host : Host
host = record {
  World = ℕ × ℕ;
  Shell = Unit;
  open_shell = pure tt;
  close = λ s. pure tt;
  run = λ s cmd w. let (r, running) = answer cmd w.0 in (returned r, (running, w.1));
  sleep = λ n w. (w.0, w.1 + n * 1000);
  sleep_half = λ w. w;
}

abbrev services : Services host
services = record {
  push_file = λ uri path. pure tt;
  write_temp = λ text. pure (lit "/tmp/a.xml");
  remove = λ path. pure tt;
  monotonic = λ w. w.1;
  Element = Text;
  fromstring = λ t. returned t;
  append_os = λ e tag t. returned (e ++ t);
  tostring = λ e. e;
}

abbrev with_login : Method (ℕ × ℕ) (Unit {0}) → Connection host
with_login m = record {
  services = services;
  login = λ timeout. m;
  logoff = pure tt;
  open_session = pure tt;
  activate_volumes = λ volumes. pure [];
  xml = record { targets = λ t. returned []; addresses = λ t. returned [] };
  uuid4 = λ w. lit "uuid";
}

abbrev unreachable : Connection host
unreachable = with_login (raise (foreign 113))

abbrev reachable : Connection host
reachable = with_login (pure tt)

abbrev no_devices : GuestParameters
no_devices = record { storage_volumes = []; ifaces = []; parameters = none }

-- Log in, stop a running guest, and log off.
session_test :
    (do login host reachable 60; stop host reachable (lit "vm"); logoff host reachable)
      (init host reachable, (1, 0))
    ≡ (returned tt, (init host reachable, (0, 0)))
unfolding login ◌>>=◌ stop stop_defined is_defined starts_with lit is_running state_of parse_dominfo
    strip text_eq shutdown virsh_command logoff close
session_test = refl

failed_login_example :
    (login host unreachable 60 (init host unreachable, (1, 0))
      ≡ (raised (foreign 113), (half_open host unreachable, (1, 0))))
    × Refuses host unreachable
        (attribute_error "'NoneType' object has no attribute")
        (start host unreachable (lit "vm") 1 512 no_devices)
        (half_open host unreachable, (1, 0))
    × Refuses host unreachable
        (attribute_error "'NoneType' object has no attribute")
        (stop host unreachable (lit "vm"))
        (half_open host unreachable, (1, 0))
    × Refuses host unreachable
        (attribute_error "'NoneType' object has no attribute")
        (logoff host unreachable)
        (half_open host unreachable, (1, 0))
unfolding raise
failed_login_example =
    failed_login host unreachable 60 (1, 0) (1, 0) (foreign 113) (lit "vm") 1 512 no_devices refl

logoff-init_example :
    Triple (λ s. Unit) (logoff host reachable) (λ u s. s.0 ≡ init host reachable) (λ e s. Unit)
logoff-init_example = logoff-init host reachable
