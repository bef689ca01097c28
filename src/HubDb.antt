-- ===== src/HubDb.antt =====
-- db.ts, by its tables, and the routes of the broadcasts.
pub mod Broadcasts
pub mod Clients
pub mod Leaderboard
pub mod Logs
pub mod Reports
pub mod Unread
mod Tests
