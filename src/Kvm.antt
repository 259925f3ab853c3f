-- ===== src/Kvm.antt =====
-- The KVM hypervisor driver (tessia/baselib/hypervisors/kvm).
pub mod DeviceManager
pub mod Templates
pub mod Storage
pub mod Iface
pub mod Guest
pub mod Virsh
pub mod Hypervisor
