-- ===== src/Examples/Kni.antt =====
-- rte/examples/kni/main.rs.
pub mod Config
pub mod Accepted
pub mod Ports
pub mod Main
