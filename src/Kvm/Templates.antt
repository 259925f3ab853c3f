-- ===== src/Kvm/Templates.antt =====
-- The xml templates of the KVM driver, with their fields filled in by `str.format`:
-- hypervisors/kvm/storage/resources/disk_template.xml and
-- hypervisors/kvm/resources/{macvtap,vm}_template.xml under tessia/baselib.
use tessia_baselib.Prelude.{◌++◌, Text, lit}

unfoldable pub disk_xml : Text → Text → Text → Text → Text
disk_xml dev target_dev devno boot_tag =
    lit
      "    <disk type=\"block\" device=\"disk\">\n      <driver name=\"qemu\" type=\"raw\"/>\n      <source dev=\""
    ++ (dev
        ++ (lit "\"/>\n      <target dev=\""
            ++ (target_dev
                ++ (lit
                      "\" bus=\"virtio\"/>\n      <address type=\"ccw\" cssid=\"0xfe\" ssid=\"0x0\" devno=\""
                    ++ (devno ++ (lit "\"/>\n      " ++ (boot_tag ++ lit "\n    </disk>\n")))))))

unfoldable pub macvtap_xml : Text → Text → Text → Text
macvtap_xml mac hostiface devno =
    lit "       <interface type=\"direct\">\n         <mac address=\""
    ++ (mac
        ++ (lit "\"/>\n         <source dev=\""
            ++ (hostiface
                ++ (lit
                      "\" mode=\"bridge\"/>\n         <model type=\"virtio\"/>\n         <address type=\"ccw\" cssid=\"0xfe\" ssid=\"0x0\" devno=\""
                    ++ (devno ++ lit "\"/>\n       </interface>\n")))))

unfoldable pub vm_xml : Text → Text → Text → Text → Text → Text → Text
vm_xml name uuid memory cpu disks ifaces =
    lit "<domain type='kvm' xmlns:qemu='http://libvirt.org/schemas/domain/qemu/1.0'>\n    <name>"
    ++ (name
        ++ (lit "</name>\n    <uuid>"
            ++ (uuid
                ++ (lit "</uuid>\n    <memory unit='MiB'>"
                    ++ (memory
                        ++ (lit "</memory>\n    <currentMemory unit='MiB'>"
                            ++ (memory
                                ++ (lit "</currentMemory>\n    <vcpu placement='static'>"
                                    ++ (cpu
                                        ++ (lit
                                              "</vcpu>\n    <os>\n        <type arch='s390x' machine='s390-ccw-virtio'>hvm</type>\n    </os>\n    <clock offset='utc'/>\n    <on_poweroff>destroy</on_poweroff>\n    <on_reboot>restart</on_reboot>\n    <on_crash>preserve</on_crash>\n    <devices>\n        <emulator>/usr/bin/qemu-kvm</emulator>\n      "
                                            ++ (disks
                                                ++ (lit "\n      "
                                                    ++ (ifaces
                                                        ++ lit
                                                            "\n    <console type='pty'>\n      <target type='sclp' port='0'/>\n    </console>\n    <memballoon model='virtio'>\n      <address type='ccw' cssid='0xfe' ssid='0x3' devno='0xffba'/>\n    </memballoon>\n    </devices>\n</domain>\n")))))))))))))
