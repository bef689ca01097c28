-- ===== src/Accounts/Ledger.antt =====
-- ledger-engine.ts: the transfer pipeline, and what it does to the accounts.
pub mod Params
pub mod Pipeline
pub mod Entry
pub mod Movement
pub mod Posting
pub mod Refusals
pub mod Stages
pub mod Body
pub mod Soundness
pub mod Shares
pub mod Books
pub mod Outcomes
pub mod Guarantees
pub mod Effects
pub mod Replay
pub mod Failures
pub mod Moves
