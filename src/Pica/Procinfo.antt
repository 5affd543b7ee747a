-- ===== src/Pica/Procinfo.antt =====
-- The process information in the evidence.
pub mod Encode
pub mod Defs
pub mod Roundtrip
pub mod Chain
