-- ===== src/Ssh.antt =====
-- The ssh connection (tessia/baselib/common/ssh).
pub mod Shell
mod Tests
