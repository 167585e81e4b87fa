-- ===== src/Examples/Bond.antt =====
-- rte/examples/bond/main.rs.
pub mod Frames
pub mod Replies
pub mod Tagged
pub mod Ports
pub mod Commands
pub mod Main
pub mod Prompt
pub mod Exchange
