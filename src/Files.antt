-- ===== src/Files.antt =====
-- The files of src/libio.c, plain and sealed, and the configuration in one of them.
pub mod Defs
pub mod Config
pub mod Sealed
