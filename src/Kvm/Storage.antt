-- ===== src/Kvm/Storage.antt =====
-- The disks of a KVM guest (tessia/baselib/hypervisors/kvm/storage/{disk,pool}.py). A field of a
-- parameters dictionary is an Option: a key that is missing raises where the source subscripts it.
use tessia_baselib.Prelude.{Bool, Option, none, some, List, [], ◌∷◌, ◌++◌, Text, lit, if◌then◌else◌}
pub use tessia_baselib.Volume.{SystemAttributes, Volume, DevPaths}
unfoldable pub use tessia_baselib.Volume.{dev_path}
use tessia_baselib.Python.{
  value_error, key_error, type_error, Outcome, returned, raised, Method, pure, lift, or_raise,
  ◌>>=◌,
}
use tessia_baselib.Kvm.DeviceManager.{
  TargetDeviceManager, XmlAttributes, get_valid_dev, get_valid_devno, update_dev_blacklist,
  update_devno_blacklist,
}
use tessia_baselib.Kvm.Templates.{disk_xml}

-- `DiskBase`, its parameters included
pub record Disk : Type 0 where
  pub volume_id : Text
  pub hyp_dev_path : Text
  pub boot_device : Bool
  pub libvirt_xml : Option Text
  pub target_dev : Text
  pub target_devno : Text

-- ElementTree.fromstring(None) raises
unfoldable pub xml_text : Option Text → Outcome Text
xml_text none = raised (type_error "a bytes-like object is required, not 'NoneType'")
xml_text (some t) = returned t

module _ (xml : XmlAttributes) where
  -- the end of `DiskBase.__init__`: given or generated device name and number
  unfoldable pub assign_devices :
      Option SystemAttributes → Method TargetDeviceManager (Option Text × Text × Text)
  unfolding xml_text
  assign_devices (some attributes) = do
    text ← lift (xml_text attributes.libvirt)
    target_dev ← update_dev_blacklist xml text
    target_devno ← update_devno_blacklist xml text
    pure (some text, target_dev, target_devno)
  assign_devices none = do
    target_dev ← get_valid_dev
    target_devno ← get_valid_devno
    pure (none, target_dev, target_devno)

  -- DiskBase(parameters, target_dev_mngr), where the path is `parameters['hyp_dev_path']` if there
  unfoldable pub new_disk : Volume → Option Text → Method TargetDeviceManager Disk
  unfolding assign_devices
  new_disk parameters path = do
    volume_id ← lift (or_raise parameters.volume_id (key_error "volume_id"))
    hyp_dev_path ← lift (or_raise path (value_error "Device path on hypervisor not provided"))
    devices ← assign_devices parameters.system_attributes
    pure (record {
      volume_id = volume_id;
      hyp_dev_path = hyp_dev_path;
      boot_device = parameters.boot_device;
      libvirt_xml = devices.0;
      target_dev = devices.1;
      target_devno = devices.2;
    })

  -- StoragePool(disks, hyp_dev_paths, target_dev_mngr)
  unfoldable pub new_pool : List Volume → DevPaths → Method TargetDeviceManager (List Disk)
  unfolding new_disk dev_path
  new_pool [] paths = pure []
  new_pool (volume ∷ volumes) paths = do
    volume_id ← lift (or_raise volume.volume_id (key_error "volume_id"))
    path ← lift (
        or_raise (dev_path paths volume_id)
          (value_error "Missing device path on hypervisor for volume {}"))
    disk ← new_disk volume (some path)
    disks ← new_pool volumes paths
    pure (disk ∷ disks)

built_xml : Disk → Option Text → Text
built_xml d (some text) = text
built_xml d none =
    disk_xml d.hyp_dev_path d.target_dev d.target_devno
      (if d.boot_device then lit "<boot order=\"1\"/>" else [])

-- DiskBase.to_xml: the text, and the disk that keeps it
unfoldable pub disk_to_xml : Disk → Text × Disk
unfolding built_xml
disk_to_xml d = let text = built_xml d d.libvirt_xml in (text, record d { libvirt_xml = some text })

-- StoragePool.to_xml
unfoldable pub pool_to_xml : List Disk → Text × List Disk
unfolding disk_to_xml
pool_to_xml [] = ([], [])
pool_to_xml (d ∷ ds) =
    let (text, d') = disk_to_xml d in let (texts, ds') = pool_to_xml ds in (text ++ texts, d' ∷ ds')
