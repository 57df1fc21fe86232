-- ===== src/Proxy.antt =====
-- src/routes/proxy.rs: the exchange of a forwarded request with its upstream on this machine.
pub mod Headers
pub mod Exchange
pub mod Cleaning
pub mod Handshake
pub mod Local
mod Tests
