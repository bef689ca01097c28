-- ===== src/Accounts/Store.antt =====
-- db-accounts.ts: the tables, and a module for the methods on each group of them.
pub mod Tables
pub mod Monad
pub mod Rows
pub mod Txns
pub mod Controls
pub mod Limits
pub mod Identities
