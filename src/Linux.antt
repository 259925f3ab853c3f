-- ===== src/Linux.antt =====
-- The Linux guest driver (tessia/baselib/guests/linux).
pub mod Host
pub mod Timer
pub mod Gives
pub mod Disk
pub mod Dasd
pub mod Fcp
pub mod Pool
mod Tests
