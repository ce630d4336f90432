-- ===== src/Relay/Server.antt =====
-- pkg/relay/server.go: the map of sessions, the counters, and what a connection's first frame does.
pub mod Sessions
pub mod Handle
pub mod Kept
pub mod Reaping
pub mod Events
pub mod Admission
pub mod Successor
pub mod Shutdown
pub mod Limit
mod Tests
