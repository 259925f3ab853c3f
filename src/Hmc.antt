-- ===== src/Hmc.antt =====
-- The driver of the Hardware Management Console (tessia/baselib/hypervisors/hmc).
pub mod Cpus
pub mod Chunks
pub mod Client
pub mod Resources
pub mod NetSetup
pub mod Boot
pub mod Terminal
pub mod Commands
pub mod Live
pub mod Volumes
pub mod Hypervisor
mod Tests
