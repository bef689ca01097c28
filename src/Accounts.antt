-- ===== src/Accounts.antt =====
-- The accounts and the ledger: src/account-*.ts, src/ledger-engine.ts and what they call.
pub mod Types
pub mod Faults
pub mod Rejects
pub mod Flags
pub mod Breaker
pub mod Store
pub mod Control
pub mod LimitCheck
pub mod Ledger
pub mod Engine
pub mod Routes
pub mod History
mod Tests
mod Checks
