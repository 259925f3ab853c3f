-- ===== src/Kvm/Guest/Tests.antt =====
-- Runs of the guest model, and the theorems about it at concrete inputs.
use tessia_baselib.Prelude.{
  ℕ, ◌+◌, ◌≡◌, refl, true, false, none, some, List, [], ◌∷◌, ◌++◌, Nodup, Text, lit, text_eq,
  contains, All,
}
use tessia_baselib.Python.{key_error, returned, raised, Method, ◌>>=◌}
use tessia_baselib.Kvm.DeviceManager.{
  XmlAttributes, init, get_valid_dev, get_valid_devno, pick_devno, generate_devno,
  update_devno_blacklist, only_attribute,
}
use tessia_baselib.Kvm.DeviceManager.Format.{is_devname, is_devno, devno_text}
use tessia_baselib.Kvm.DeviceManager.Names.{valid_devs}
use tessia_baselib.Kvm.Storage.{Volume, DevPaths, Disk, new_pool}
use tessia_baselib.Kvm.Iface.{IfaceParameters, Iface}
use tessia_baselib.Kvm.Guest.{GuestKvm, activate, devices, to_xml}
use tessia_baselib.Kvm.Guest.Disks.{AllBuilt, target_devs, target_devnos}
use tessia_baselib.Kvm.Guest.Devices.{iface_devnos, devices_distinct}
use tessia_baselib.Kvm.Guest.Xml.{diskless_guest_fails}

-- A parser for which every text is an element that names itself.
abbrev echo : XmlAttributes
echo = record { targets = λ t. returned (some t ∷ []); addresses = λ t. returned (some t ∷ []) }

abbrev volume : Text → Volume
volume id = record {
  volume_id = some id;
  type = some (lit "DASD");
  specs = none;
  system_attributes = none;
  boot_device = false;
}

abbrev two_volumes : List Volume
two_volumes = volume (lit "1500") ∷ volume (lit "1501") ∷ []

abbrev two_paths : DevPaths
two_paths = (lit "1501", lit "/dev/dasdb") ∷ (lit "1500", lit "/dev/dasda") ∷ []

abbrev one_iface : List IfaceParameters
one_iface =
    record {
      attributes = some (record { libvirt = some (lit "0x0005"); hostiface = none });
      type = none;
      mac_address = none;
    }
    ∷ []

abbrev disk : Text → Text → Text → Text → Disk
disk id path dev devno = record {
  volume_id = id;
  hyp_dev_path = path;
  boot_device = false;
  libvirt_xml = none;
  target_dev = dev;
  target_devno = devno;
}

abbrev two_disks : List Disk
two_disks =
    disk (lit "1500") (lit "/dev/dasda") (lit "vda") (lit "0x0001")
    ∷ disk (lit "1501") (lit "/dev/dasdb") (lit "vdb") (lit "0x0002")
    ∷ []

abbrev iface_5 : List Iface
iface_5 = record { libvirt_xml = lit "0x0005"; devno = lit "0x0005" } ∷ []

devices_run : (devices echo two_volumes two_paths one_iface init).0 ≡ returned (two_disks, iface_5)
unfolding devices init lit valid_devs ◌>>=◌ new_pool text_eq get_valid_dev contains get_valid_devno
    pick_devno generate_devno devno_text update_devno_blacklist only_attribute is_devno
devices_run = refl

devices_distinct_example :
    Nodup (target_devs two_disks)
    × Nodup (target_devnos two_disks ++ iface_devnos iface_5)
    × All (λ t. is_devname t ≡ true) (target_devs two_disks)
    × All (λ t. is_devno t ≡ true) (target_devnos two_disks ++ iface_devnos iface_5)
    × AllBuilt two_paths two_volumes two_disks
devices_distinct_example =
    devices_distinct echo two_volumes two_paths one_iface two_disks iface_5 devices_run

abbrev diskless : GuestKvm
diskless = record {
  guest_name = lit "guest";
  cpu = 1;
  memory = 1024;
  storage_volumes = [];
  ifaces = one_iface;
  active_hw = none;
}

-- A pool that activates nothing, on a hypervisor whose state is a number.
abbrev no_pool : List Volume → Method ℕ DevPaths
no_pool vs w = (returned [], w + 1)

diskless_guest_fails_example :
    let (r, (g', w')) = activate no_pool (diskless, 7) in
    (r ≡ returned tt) × (w' ≡ 7) × (to_xml echo (lit "u") g' ≡ raised (key_error "vols"))
diskless_guest_fails_example = diskless_guest_fails no_pool echo (lit "u") diskless 7 refl
