-- ===== src/Cli.antt =====
-- main.go: the command line. Flags are records of the values that Go's flag package has read.
pub mod Shell
pub mod Codes
pub mod Sizes
pub mod Sessions
pub mod Authorised
pub mod Relays
pub mod Logger
pub mod Sharing
mod Tests
