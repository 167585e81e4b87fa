-- ===== src/Build.antt =====
-- The build scripts of rte-build: what they pass to the compiler and to the linker.
pub mod Cpu
pub mod Libs
pub mod Flags
