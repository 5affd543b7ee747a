-- ===== src/Pica/Evidence.antt =====
-- The evidence that the attester daemon sends, and its verification.
pub mod Types
pub mod Extract
pub mod Bundle
pub mod Flags
pub mod Pcrs
pub mod Attested
pub mod Quote
pub mod Verify
