-- ===== src/Hmc/Tests.antt =====
-- Runs of the console's driver on a small console, and the theorems about it at concrete inputs.
pub mod Console
mod Parts
mod Runs
