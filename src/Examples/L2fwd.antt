-- ===== src/Examples/L2fwd.antt =====
-- rte/examples/l2fwd/main.rs.
pub mod Options
pub mod Pairs
pub mod Queues
pub mod Init
pub mod Main
