-- ===== src/Tls.antt =====
-- The callbacks by which TLS connections are attested.
pub mod Verify
pub mod Handshake
pub mod Accepts
pub mod Pkhash
pub mod Sgx
pub mod Results
pub mod Attests
pub mod Rounds
pub mod Sound
pub mod Peers
