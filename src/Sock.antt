-- ===== src/Sock.antt =====
-- Sending and receiving whole messages over a stream socket, of src/libsock.c.
pub mod Defs
pub mod Send
pub mod Recv
