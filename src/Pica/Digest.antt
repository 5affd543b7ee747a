-- ===== src/Pica/Digest.antt =====
-- The comparison of measured with configured digests, of src/libpica_clnt.c.
pub mod Defs
pub mod Libs
pub mod Accepts
