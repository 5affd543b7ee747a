-- ===== src/Pica/Config.antt =====
-- The configuration file, written by reg_config and read by build_conf.
pub mod Layout
pub mod Write
pub mod Build
pub mod Codec
pub mod Placed
pub mod Written
pub mod Relocated
pub mod Ranges
pub mod Roundtrip
pub mod Registered
