-- ===== src/Daemon.antt =====
-- The attester daemon of tpm2/tpmdaemon.c, and the client's request to it.
pub mod Defs
pub mod Exchange
pub mod Quote
pub mod Serve
pub mod Answers
pub mod Served
pub mod Tpm
pub mod Selects
pub mod Quotes
