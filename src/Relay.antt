-- ===== src/Relay.antt =====
-- internal/relay/client.go: the connection to the relay.
pub mod Backoff
pub mod Conn
pub mod Handshake
pub mod Serve
pub mod Run
