-- ===== src/Web.antt =====
-- The native messaging host of web/native-messaging-echo/native_host/echo_host.c.
pub mod Host
pub mod Reads
pub mod Echoes
pub mod Frames
