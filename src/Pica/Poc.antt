-- ===== src/Pica/Poc.antt =====
-- The client program of pica_poc.
pub mod Defs
pub mod Flags
pub mod Accepts
pub mod Trusted
pub mod Effects
