-- ===== src/Tests.antt =====
-- Runs of the model at concrete inputs.
pub mod World
pub mod Build
pub mod Crate
pub mod L2fwd
pub mod Kni
pub mod Bond
pub mod Ethtool
pub mod Cmdline
pub mod Buffers
pub mod Calls
