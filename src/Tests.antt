-- ===== src/Tests.antt =====
-- Runs of the models and instances of the theorems at concrete inputs.
mod Sock
mod Tls
mod Evidence
mod Pica
mod Procinfo
mod Config
mod Measure
mod Policy
mod Daemon
mod Poc
mod Serve
mod Files
mod Web
mod Sgx
mod Peers
mod Tpm
