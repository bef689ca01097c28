-- ===== src/Im.antt =====
-- db-im.ts and im-crypto.ts: the instant messages.
pub mod Store
pub mod Upserts
pub mod Cipher
pub mod Crypto
pub mod Sync
mod Tests
