-- ===== src/Kvm/Hypervisor/Stopping.antt =====
-- What HypervisorKvm.stop has established when it returns (kvm/kvm.py).
use tessia_baselib.Prelude.{◌≡◌, ◌⊎◌, false, some, Text}
use tessia_baselib.Python.{returned}
use tessia_baselib.Linux.Host.{Host}
use tessia_baselib.Kvm.Virsh.{Services, is_running, shutdown}
use tessia_baselib.Kvm.Virsh
use tessia_baselib.Kvm.Virsh.Ran.{ClockRuns}
use tessia_baselib.Kvm.Virsh.Shutdown.{IsDown}
use tessia_baselib.Kvm.Hypervisor.{Connection, State}

abbrev Always : {S : Type 0} → S → Type 0
Always s = Unit

abbrev Anything : {S A : Type 0} → A → S → Type 0
Anything a s = Unit

module _ (h : Host) (c : Connection h) where
  -- of the Virsh object and the world of a hypervisor
  abbrev On : (Virsh.State h → Type 0) → State h c → Type 0
  On P s = (v : Virsh.Virsh h) × (s.0.virsh ≡ some v) × P (v, s.1)

module _ (h : Host) (c : Connection h) (clock : ClockRuns c.services) where
  -- The guest was asked for last and did not run, or was shut down.
  pub record Stopped (d : Text) (s : State h c) : Type 0 where
    pub how :
        ((before : Virsh.State h) × (after : Virsh.State h) × (is_running h d before
            ≡ (returned false, after))
          × (s.0.virsh ≡ some after.0)
          × (s.1 ≡ after.1))
        ⊎ On h c (IsDown h c.services clock d) s
