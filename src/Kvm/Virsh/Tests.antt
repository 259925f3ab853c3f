-- ===== src/Kvm/Virsh/Tests.antt =====
-- Runs of Virsh on a small host, and the theorem about them at a concrete input.
use tessia_baselib.Prelude.{
  true, ℕ, ◌+◌, ◌*◌, ◌≡◌, refl, none, some, [], ◌∷◌, ◌++◌, Text, lit, strip, text_eq, starts_with,
  arith, if◌then◌else◌,
}
use tessia_baselib.Python.{returned, pure, ◌>>=◌}
use tessia_baselib.Python.Rules.{Post, Triple}
use tessia_baselib.Linux.Host.{Host}
use tessia_baselib.Kvm.Virsh.{Services, Virsh, virsh_command, get_dominfo, close, destroy, shutdown}
use tessia_baselib.Kvm.Virsh.Dominfo.{parse_dominfo, state_of}
use tessia_baselib.Kvm.Virsh.Ran.{NotFuel, ClockRuns}
use tessia_baselib.Kvm.Virsh.Closing.{AnyError, Closed, close_lem}
use tessia_baselib.Kvm.Virsh.Shutdown.{IsDown, shutdown-IsDown}

-- A domain that never shuts down by itself, and a clock in milliseconds.
abbrev answer : Text → ℕ × Text
answer cmd =
    (0, if starts_with cmd (lit "virsh dominfo") then lit "Id:    1\nState:   running\n" else [])

abbrev slow : Host
slow = record {
  World = ℕ;
  Shell = Unit;
  open_shell = pure tt;
  close = λ s. pure tt;
  run = λ s cmd w. (returned (answer cmd), w);
  sleep = λ n w. w + n * 1000;
  sleep_half = λ w. w + 500;
}

abbrev services : Services slow
services = record {
  push_file = λ uri path. pure tt;
  write_temp = λ text. pure (lit "/tmp/a.xml");
  remove = λ path. pure tt;
  monotonic = λ w. w;
  Element = Text;
  fromstring = λ t. returned t;
  append_os = λ e tag t. returned (e ++ t);
  tostring = λ e. e;
}

clock : ClockRuns services
clock = record {
  run_takes = λ s cmd w. omega arith;
  sleep_takes = λ n w. omega arith;
  run_raises = λ s cmd w e. cc;
}

abbrev connected : Virsh slow
connected = record { host_cnn = true; cmd_channel = some tt; tmp_dir = none }

parse_test :
    parse_dominfo (lit "Id:    1\nState:   shut off\n")
    ≡ (lit "State", lit "shut off") ∷ (lit "Id", lit "1") ∷ []
unfolding parse_dominfo lit strip
parse_test = refl

-- It is destroyed after the third sleep of five seconds, the first that goes beyond ten seconds.
shutdown_test :
    shutdown slow services 4 (lit "vm") 10 (connected, 1000) ≡ (returned tt, (connected, 16000))
unfolding shutdown lit ◌>>=◌ virsh_command get_dominfo state_of parse_dominfo strip starts_with
    text_eq destroy
shutdown_test = refl

shutdown-IsDown_example :
    Triple
      (λ s. Unit)
      (shutdown slow services 4 (lit "vm") 10)
      (λ u s. IsDown slow services clock (lit "vm") s)
      NotFuel
shutdown-IsDown_example = shutdown-IsDown slow services clock (lit "vm") 10

close_lem_example :
    Post
      (λ u s. Closed slow (record connected { tmp_dir = some (lit "/tmp/a") }) 1000 s)
      (AnyError slow)
      (close slow (record connected { tmp_dir = some (lit "/tmp/a") }, 1000)).0
      (close slow (record connected { tmp_dir = some (lit "/tmp/a") }, 1000)).1
close_lem_example = close_lem slow (record connected { tmp_dir = some (lit "/tmp/a") }) 1000
