-- ===== src/Transport.antt =====
-- src/transport: the dispatcher task of a connection, and the handshake that starts it.
pub mod Kinds
pub mod Remap
pub mod Handshake
pub mod Tls
pub mod Upgrade
pub mod Socket
pub mod Dispatcher
pub mod Exchange
