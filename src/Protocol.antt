-- ===== src/Protocol.antt =====
-- pkg/protocol: the binary frames of the wire and their padding.
pub mod Messages
pub mod Frame
pub mod Padding
mod Tests
