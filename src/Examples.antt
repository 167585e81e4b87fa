-- ===== src/Examples.antt =====
-- The applications of rte/examples, and what they share.
pub mod Args
pub mod Ends
pub mod Ports
pub mod L2fwd
pub mod Kni
pub mod Bond
pub mod Ethtool
pub mod Cmdline
