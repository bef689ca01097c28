-- ===== src/Certs.antt =====
-- db-certs.ts, and the check of client certificates in ca.ts.
pub mod Store
pub mod Verify
pub mod Revocation
mod Tests
