-- ===== src/Pica/Hashtable.antt =====
-- The hash table of src/libpica_clnt.c.
pub mod Defs
pub mod Refines
pub mod Build
