-- ===== src/Relay.antt =====
-- pkg/relay: the server that matches publishers with subscribers.
pub mod RateLimit
pub mod Session
pub mod Server
pub mod Proxy
pub mod WebSocket
