-- ===== src/Transport.antt =====
-- How the driver receives: the interface of a receiver, and its two implementations.
pub mod StreamReceiver
pub mod Tcp
pub mod Udp
