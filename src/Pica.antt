-- ===== src/Pica.antt =====
-- The client library of PICA, src/libpica_clnt.c: what it stores, registers and verifies.
pub mod Types
pub mod Hashtable
pub mod Digest
pub mod Check
pub mod Evidence
pub mod Procinfo
pub mod Config
pub mod Policy
pub mod Poc
