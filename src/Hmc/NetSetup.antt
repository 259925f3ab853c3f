-- ===== src/Hmc/NetSetup.antt =====
-- The network parameters, and the commands that set the network up on the live image:
-- _prepare_setup_network_cmds (hypervisors/hmc/hmc.py).
pub mod Channels
pub mod Consecutive
use tessia_baselib.Prelude.{
  ℕ, zero, suc, ◌+◌, ◌==◌, Bool, true, false, not, ◌&&◌, ◌||◌, Option, none, some, List, [], ◌∷◌,
  ◌++◌, map, Text, lit, text_eq, lower, contains, decimal, split_on, join, if◌then◌else◌,
}
use tessia_baselib.Python.{Outcome, returned, raised}
use tessia_baselib.Hmc.NetSetup.Channels.{channel_list, has_char}

pub record NetBoot : Type 0 where
  pub kernel_url : Text
  pub initrd_url : Option Text
  pub cmdline : Option Text

-- The values of `options` are given as `str` writes them.
pub record NetSetup : Type 0 where
  pub ip : Text
  pub dns : Option (List Text)
  pub mask : ℕ
  pub gateway : Text
  pub vlan : Option ℕ
  pub type : Option Text
  pub device : Text
  pub mac : Option Text
  pub options : Option (List (Text × Text))
  pub password : Text

unfoldable pub pci_commands : Text → List Text
pci_commands device =
    (lit "DEV_PATH=$(dirname $(grep -m1 -r '0x0*"
      ++ (lower device ++ lit "' --include function_id /sys/bus/pci/devices/*))"))
    ∷ (lit "export IFACE_NAME=$(ls -1 ${DEV_PATH}/net | head -1)" ∷ [])

-- options.pop('layer2'): the value, and the other options
unfoldable pub pop_layer2 : List (Text × Text) → Option Text × List (Text × Text)
pop_layer2 [] = (none, [])
pop_layer2 (o ∷ os) =
    let (found, rest) = pop_layer2 os in
    if text_eq o.0 (lit "layer2") then (some o.1, os) else (found, o ∷ rest)

-- 1 for a value that says yes; any other, and none, is off
unfoldable pub layer2_of : Option Text → ℕ
layer2_of none = 0
layer2_of (some t) = if contains (lit "true" ∷ (lit "1" ∷ [])) (lower t) then 1 else 0

unfoldable pub option_words : List (Text × Text) → Text
option_words [] = []
option_words (o ∷ os) = lit " -o " ++ (o.0 ++ (lit "=" ++ (o.1 ++ option_words os)))

-- t.replace("0.0.", ""), from left to right
unfoldable pub remove_bus : Text → Text
remove_bus [] = []
remove_bus (a ∷ (b ∷ (c ∷ (d ∷ cs)))) =
    let rest = remove_bus cs in
    let next = remove_bus (b ∷ (c ∷ (d ∷ cs))) in
    if text_eq (a ∷ (b ∷ (c ∷ (d ∷ [])))) (lit "0.0.") then rest else a ∷ next
remove_bus (a ∷ cs) = a ∷ cs

-- ch_list[0] with the bus it is on
unfoldable pub full_ccw : Text → Text
full_ccw t = if has_char b'.' t then t else lit "0.0." ++ t

-- the list of a split is not empty
unfoldable pub head_or_empty : List Text → Text
head_or_empty [] = []
head_or_empty (t ∷ ts) = t

mac_commands : ℕ → Option Text → List Text
mac_commands layer2 none = []
mac_commands layer2 (some []) = []
mac_commands layer2 (some (c ∷ cs)) =
    if layer2 == 1 then (lit "ip link set $IFACE_NAME address " ++ (c ∷ cs)) ∷ [] else []

abbrev given_options : Option (List (Text × Text)) → List (Text × Text)
given_options none = []
given_options (some os) = os

-- the commands for an OSA card on the channels `ch_list`
unfoldable pub osa_commands : List Text → NetSetup → List Text
unfolding option_words remove_bus full_ccw layer2_of pop_layer2 mac_commands head_or_empty
osa_commands ch_list n =
    let (popped, options) = pop_layer2 (given_options n.options) in
    let layer2 = layer2_of popped in
    (lit "cio_ignore -r " ++ join (lit ",") ch_list)
    ∷ ((lit "znetconf -a "
          ++ (remove_bus (head_or_empty ch_list)
              ++ (lit " -o layer2=" ++ (decimal layer2 ++ option_words options))))
        ∷ ((lit "export IFACE_NAME=$(ls -1 /sys/devices/qeth/"
              ++ (full_ccw (head_or_empty ch_list) ++ lit "/net | head -1)"))
            ∷ mac_commands layer2 n.mac))

unfoldable pub vlan_commands : Option ℕ → List Text
vlan_commands none = []
vlan_commands (some zero) = []
vlan_commands (some (suc n)) =
    let v = decimal (suc n) in
    (lit "ip link add link ${IFACE_NAME} name ${IFACE_NAME}." ++ (v ++ (lit " type vlan id " ++ v)))
    ∷ (lit "ip link set $IFACE_NAME up" ∷ ((lit "export IFACE_NAME=${IFACE_NAME}." ++ v) ∷ []))

unfoldable pub address_commands : NetSetup → List Text
address_commands n =
    (lit "ip addr add " ++ (n.ip ++ (lit "/" ++ (decimal n.mask ++ lit " dev $IFACE_NAME"))))
    ∷ (lit "ip link set $IFACE_NAME up" ∷ ((lit "ip route add default via " ++ n.gateway) ∷ []))

dns_entry : Text → Text
dns_entry t = lit "echo 'nameserver " ++ (t ++ lit "' >> /etc/resolv.conf")

unfoldable pub dns_commands : Option (List Text) → List Text
unfolding dns_entry
dns_commands none = []
dns_commands (some []) = []
dns_commands (some (t ∷ ts)) = lit "echo > /etc/resolv.conf" ∷ map dns_entry (t ∷ ts)

-- the commands after the interface has its name
unfoldable pub interface_commands : NetSetup → List Text
unfolding vlan_commands address_commands dns_commands
interface_commands n =
    vlan_commands n.vlan
    ++ (address_commands n ++ (dns_commands n.dns ++ (lit "ping -c 1 " ++ n.gateway) ∷ []))

is_pci : Option Text → Bool
is_pci none = false
is_pci (some t) = text_eq t (lit "pci")

with_channels : Outcome (List Text) → NetSetup → Outcome (List Text)
with_channels (raised e) n = raised e
with_channels (returned chs) n = returned (osa_commands chs n ++ interface_commands n)

unfoldable pub prepare_setup_network_cmds : NetSetup → Outcome (List Text)
unfolding is_pci with_channels pci_commands osa_commands interface_commands channel_list
prepare_setup_network_cmds n =
    if is_pci n.type
    then returned (pci_commands n.device ++ interface_commands n)
    else with_channels (channel_list n.device) n
