-- ===== src/Transport/Tls.antt =====
-- src/transport/tls.rs: the TLS layer under the WebSocket. rustls, webpki, native-tls and the TCP
-- sockets are parameters; the choice of what they are asked to check is the code's.
pub mod Process
pub mod Rustls
pub mod Connect
pub mod Native
pub mod NativeErrors
pub mod Trust
pub mod Pinning
