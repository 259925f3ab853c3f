-- ===== src/Cms/Tests.antt =====
-- A run of the CMS guest on a small terminal, and the theorem about it at a concrete input.
use tessia_baselib.Prelude.{
  ℕ, suc, ◌+◌, ◌≡◌, ◌≢◌, refl, Option, none, some, List, [], ◌∷◌, Text, lit, text_eq, starts_with,
  split_on, drop, if◌then◌else◌,
}
use tessia_baselib.Python.{out_of_fuel, returned, raised, pure, ◌>>=◌}
use tessia_baselib.Python.Rules.{Triple}
use tessia_baselib.Hmc.NetSetup.Channels.{from_hex, hex_text}
use tessia_baselib.Cms.{Terminal, Match, attach_msg, cpu_msg, attach_cpu}
use tessia_baselib.Cms.LastCpu.{IsLast}
use tessia_baselib.Cms.Cpus.{Defined, Asked, attach_cpu-Defined}

abbrev answer : Text → Text × Option Match
answer cmd =
    if starts_with cmd (lit "q v cpus")
    then (lit "CPU 00\nCPU 0a", some (record { pattern = cpu_msg; group = lit "CPU 00" }))
    else ([], some (record { pattern = attach_msg; group = lit "CPU defined" }))

-- A machine with CPUs 00 and 0a that defines every other; the state is the commands sent, the last first.
abbrev machine : Terminal
machine = record {
  World = List Text;
  send_cmd = λ cmd ps w. (returned (answer cmd), cmd ∷ w);
  send_cp = λ cmd ps w. (returned ([], none), cmd ∷ w);
  login = λ timeout. pure [];
  logoff = pure tt;
  disconnect = pure tt;
  cpu_of = λ line. if starts_with line (lit "CPU ") then some (drop 4 line) else none;
}

attach_cpu_test :
    attach_cpu machine (lit "VM") 2 []
    ≡ (returned tt, lit "define cpu c" ∷ (lit "define cpu b" ∷ (lit "q v cpus" ∷ [])))
unfolding attach_cpu ◌>>=◌ lit starts_with text_eq drop split_on from_hex hex_text
attach_cpu_test = refl

machine_own :
    (cmd : Text) (ps : List Text) (w : List Text)
    → (machine.send_cmd cmd ps w).0 ≢ raised out_of_fuel
machine_own cmd ps w e = cc e

attach_cpu-Defined_example :
    Triple
      (λ w. Unit)
      (attach_cpu machine (lit "VM") (suc 1))
      (λ u w.
        (last : ℕ) × (output : Text) × (start : List Text) × Asked machine
          (lit "VM")
          machine_own
          output
          start
        × IsLast machine (lit "VM") last output
        × Defined machine (lit "VM") (last + 1) start (suc 1) w)
      (λ e w. e ≢ out_of_fuel)
attach_cpu-Defined_example = attach_cpu-Defined machine (lit "VM") machine_own 1
