-- ===== src/Hmc/Tests/Parts.antt =====
-- Resources, chunks, channels and boot volumes at concrete inputs.
use tessia_baselib.Prelude.{
  ◌+◌, ◌≡◌, ◌≢◌, ◌↔◌, ◌⊎◌, ◌≤◌, refl, sym, ap, ◌∙◌, arith, Bool, true, false, none, some, [], ◌∷◌,
  Text, lit, text_eq, lower, length, All,
}
use tessia_baselib.Python.{value_error, returned, raised, pure, ◌>>=◌}
use tessia_baselib.Python.Rules.{Triple}
use tessia_baselib.Hmc.Cpus.{Computed, compute_cpus, compute_cpus_lem}
use tessia_baselib.Hmc.Chunks.{string_to_chunks}
use tessia_baselib.Hmc.Chunks.Console.{string_to_chunks_bounds}
use tessia_baselib.Hmc.Client.{PartitionProperties}
use tessia_baselib.Hmc.Resources.{ResourceArgs, partition_updates, update_resources_partition}
use tessia_baselib.Hmc.Resources.Updates.{apply, wanted, apply-partition_updates}
use tessia_baselib.Hmc.Resources.Stopped.{
  StatusLaws, UpdatedStopped, WereRead, update_resources_partition-UpdatedStopped,
}
use tessia_baselib.Hmc.NetSetup.Channels.{has_char, from_hex, hex_text, channel_list}
use tessia_baselib.Hmc.NetSetup.Consecutive.{channel_list-consecutive}
use tessia_baselib.Hmc.Boot.{subscript, get_svol_uri}
use tessia_baselib.Hmc.Boot.Found.{Wanted, Found, get_svol_uri-Found}
use tessia_baselib.Hmc.Tests.Console.{
  told, Box, status_of, old_properties, console, box, scsi_boot, some_cpus, no_cpus,
}

compute_cpus_test : compute_cpus 3 no_cpus some_cpus ≡ returned (record { cp = 1; ifl = 2 })
unfolding compute_cpus
compute_cpus_test = refl

compute_cpus_lem_example : Computed 3 no_cpus some_cpus (compute_cpus 3 no_cpus some_cpus)
compute_cpus_lem_example = compute_cpus_lem 3 no_cpus some_cpus

string_to_chunks_bounds_example : All (λ l. length l ≤ 200) (string_to_chunks (lit "reboot"))
string_to_chunks_bounds_example = string_to_chunks_bounds (lit "reboot")

abbrev more_memory : ResourceArgs
more_memory = record { mem = some 2048; cp = none; ifl = none }

apply-partition_updates_example :
    (apply (partition_updates more_memory old_properties) old_properties
      ≡ wanted more_memory old_properties)
    ↔ ((more_memory.mem ≢ some old_properties.maximum_memory)
        ⊎ (old_properties.initial_memory ≡ old_properties.maximum_memory))
apply-partition_updates_example = apply-partition_updates more_memory old_properties

abbrev IsStopped : Box → Type 0
IsStopped w = w.stopped ≡ true

status_stopped : (b : Bool) → status_of b ≡ lit "stopped" → b ≡ true
unfolding lit
status_stopped true e = refl
status_stopped false e = absurd (ground arith)

console-StatusLaws : StatusLaws (console true) tt IsStopped
unfolding pure
console-StatusLaws = record {
  status_tells =
      λ w w' e. ap (λ x. x.1.stopped) (sym e) ∙ status_stopped w.stopped (ap (λ x. told x.0) e);
  wait_tells = λ w w' e. ap (λ x. x.1.stopped) (sym e);
  pull_keeps = λ w s. s;
}

update_resources_partition-UpdatedStopped_example :
    Triple
      (λ w. Unit)
      (update_resources_partition (console true) more_memory tt)
      (λ u w.
        ((properties : PartitionProperties) × WereRead
            (console true)
            tt
            console-StatusLaws
            properties
          × (partition_updates more_memory properties ≡ []))
        ⊎ UpdatedStopped (console true) tt console-StatusLaws more_memory w)
      (λ e w. Unit)
update_resources_partition-UpdatedStopped_example =
    update_resources_partition-UpdatedStopped (console true) tt console-StatusLaws more_memory

f500-from_hex : from_hex (lit "f500") ≡ some 62720
unfolding from_hex lit
f500-from_hex = refl

no_comma : has_char b',' (lit "f500") ≡ false
unfolding has_char lit
no_comma = refl

channel_list_test :
    channel_list (lit "f500") ≡ returned (lit "f500" ∷ (lit "f501" ∷ (lit "f502" ∷ [])))
unfolding channel_list from_hex hex_text lit
channel_list_test = refl

-- A bus in front of a single channel is not understood.
channel_bus_test :
    channel_list (lit "0.0.f500") ≡ raised (value_error "invalid literal for int() with base 16")
unfolding channel_list from_hex lit
channel_bus_test = refl

channel_list-consecutive_example :
    (b : Text) × (c : Text) × (channel_list (lit "f500") ≡ returned (lit "f500" ∷ (b ∷ (c ∷ []))))
    × (from_hex b ≡ some (62720 + 1))
    × (from_hex c ≡ some (62720 + 2))
channel_list-consecutive_example =
    channel_list-consecutive (lit "f500") 62720 no_comma f500-from_hex

get_svol_uri-Found_example :
    Triple
      (λ w. Unit)
      (get_svol_uri (console true) tt scsi_boot)
      (λ uri w.
        (key : Text) × (wanted : Text) × Wanted (console true) scsi_boot key wanted
        × Found (console true) key wanted uri w)
      (λ e w. Unit)
get_svol_uri-Found_example = get_svol_uri-Found (console true) tt scsi_boot

get_svol_uri_test : (get_svol_uri (console true) tt scsi_boot box).0 ≡ returned (lit "/v1")
unfolding get_svol_uri ◌>>=◌ lit text_eq subscript lower
get_svol_uri_test = refl
