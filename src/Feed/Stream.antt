-- ===== src/Feed/Stream.antt =====
-- The frames that pass from the publisher to the subscriber of pkg/feed.
pub mod Frames
pub mod Follow
pub mod Steps
pub mod Whole
pub mod Order
pub mod Rounds
pub mod Closing
pub mod Resync
