-- ===== src/Feed.antt =====
-- pkg/feed: the engines of the publisher and the subscriber, and their replay buffer.
pub mod Ring
pub mod Publisher
pub mod Subscriber
pub mod Sanitize
pub mod Files
pub mod Dial
pub mod Progress
pub mod Invite
pub mod Handshake
pub mod Stream
mod Tests
