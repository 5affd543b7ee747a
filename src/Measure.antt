-- ===== src/Measure.antt =====
-- The digests of executables and of their shared libraries, with the cache of them.
pub mod Defs
pub mod Cache
pub mod Libs
pub mod Reads
pub mod Listed
pub mod Stale
pub mod Status
pub mod Digits
pub mod Creds
