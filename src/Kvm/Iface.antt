-- ===== src/Kvm/Iface.antt =====
-- The network interfaces of a KVM guest (tessia/baselib/hypervisors/kvm/iface.py).
use tessia_baselib.Prelude.{lower, Option, none, some, Text, lit, text_eq, if◌then◌else◌}
use tessia_baselib.Python.{
  value_error, key_error, attribute_error, Outcome, returned, raised, Method, pure, lift, or_raise,
  ◌>>=◌,
}
use tessia_baselib.Kvm.DeviceManager.{
  TargetDeviceManager, XmlAttributes, get_valid_devno, update_devno_blacklist,
}
use tessia_baselib.Kvm.Templates.{macvtap_xml}

pub record IfaceAttributes : Type 0 where
  pub libvirt : Option Text
  pub hostiface : Option Text

-- One entry of `ifaces`.
pub record IfaceParameters : Type 0 where
  pub attributes : Option IfaceAttributes
  pub type : Option Text
  pub mac_address : Option Text

-- The object: its xml. The device number is kept for the proofs; the source has it in the text only.
pub record Iface : Type 0 where
  pub libvirt_xml : Text
  pub devno : Text

-- The two files resources/{}_template.xml: macvtap, and the guest's own, which has other fields.
pub data Template : Type 0 where
  macvtap vm : Template

unfoldable pub template : Text → Option Template
unfolding lower
template type =
    if text_eq (lower type) (lit "macvtap")
    then some macvtap
    else if text_eq (lower type) (lit "vm")
    then some vm
    else none

-- xml_template.format(mac=…, hostiface=…, devno=…)
unfoldable pub fill : Template → Text → Text → Text → Outcome Text
fill macvtap mac hostiface devno = returned (macvtap_xml mac hostiface devno)
fill vm mac hostiface devno = raised (key_error "name")

module _ (xml : XmlAttributes) where
  pub generated_iface : IfaceParameters → IfaceAttributes → Method TargetDeviceManager Iface
  generated_iface parameters attributes = do
    type ← lift (or_raise parameters.type (key_error "type"))
    found ← lift (or_raise (template type) (value_error "Unknown interface type {}"))
    devno ← get_valid_devno
    mac ← lift (or_raise parameters.mac_address (key_error "mac_address"))
    hostiface ← lift (or_raise attributes.hostiface (key_error "hostiface"))
    text ← lift (fill found mac hostiface devno)
    pure (record { libvirt_xml = text; devno = devno })

  pub given_iface :
      Option Text → IfaceParameters → IfaceAttributes → Method TargetDeviceManager Iface
  unfolding generated_iface
  given_iface (some text) parameters attributes = do
    devno ← update_devno_blacklist xml text
    pure (record { libvirt_xml = text; devno = devno })
  given_iface none parameters attributes = generated_iface parameters attributes

  -- Iface(parameters, target_dev_mngr)
  unfoldable pub new_iface : IfaceParameters → Method TargetDeviceManager Iface
  unfolding given_iface
  new_iface parameters = do
    attributes ← lift (
        or_raise parameters.attributes (attribute_error "'NoneType' object has no attribute 'get'"))
    given_iface attributes.libvirt parameters attributes
