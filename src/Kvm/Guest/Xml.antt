-- ===== src/Kvm/Guest/Xml.antt =====
-- What GuestKvm.to_xml needs, and what it is made of.
use tessia_baselib.Prelude.{◌≡◌, refl, List, [], ◌∷◌, Text, arith}
use tessia_baselib.Python.{key_error, returned, raised, Method, ◌>>=◌}
use tessia_baselib.Kvm.DeviceManager.{XmlAttributes}
use tessia_baselib.Kvm.Storage.{Volume, DevPaths, Disk, disk_to_xml, pool_to_xml}
use tessia_baselib.Kvm.Guest.{GuestKvm, activate, to_xml}

-- Asking a disk, or a pool, for its xml a second time gives the same text and changes nothing.
pub disk_to_xml_again : (d : Disk) → disk_to_xml (disk_to_xml d).1 ≡ disk_to_xml d
unfolding disk_to_xml
disk_to_xml_again d = ground arith

pool_to_xml_again : (ds : List Disk) → pool_to_xml (pool_to_xml ds).1 ≡ pool_to_xml ds
unfolding pool_to_xml
pool_to_xml_again [] = refl
pool_to_xml_again (d ∷ ds) = cc (disk_to_xml_again d, pool_to_xml_again ds)

-- A guest without storage volumes: `activate` returns and leaves the hypervisor's Linux as it was,
-- and `to_xml` then raises KeyError, whatever the guest's other parameters are.
pub diskless_guest_fails :
    {W : Type 0} (pool : List Volume → Method W DevPaths) (xml : XmlAttributes) (uuid : Text)
    (g : GuestKvm) (w : W)
    → g.storage_volumes ≡ []
    → let (r, (g', w')) = activate pool (g, w) in
      (r ≡ returned tt) × (w' ≡ w) × (to_xml xml uuid g' ≡ raised (key_error "vols"))
unfolding activate to_xml ◌>>=◌
diskless_guest_fails pool xml uuid g w h = ground arith
