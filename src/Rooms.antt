-- ===== src/Rooms.antt =====
-- db-rooms.ts: rooms, their members and the agents in them.
pub mod Types
pub mod Store
pub mod Agents
pub mod History
pub mod Routes
mod Tests
