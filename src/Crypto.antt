-- ===== src/Crypto.antt =====
-- pkg/crypto: the symmetric part. The primitives of Go's standard library are parameters.
pub mod Hkdf
pub mod Cipher
pub mod Pake
pub mod Memzero
pub mod Badges
pub mod Toy
mod Tests
