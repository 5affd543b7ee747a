-- ===== src/Pica/Check.antt =====
-- The checks of the measured chain against a policy statement, of src/libpica_clnt.c.
pub mod Defs
pub mod Accepts
