-- ===== src/Hub.antt =====
-- ws-server.ts and ws-task-handler.ts.
pub mod Types
pub mod State
pub mod AutoDispatch
pub mod ReportMessages
pub mod TaskMessages
pub mod RoomMessages
pub mod Presence
pub mod Search
pub mod ImMessages
pub mod Connection
pub mod Still
pub mod Calls
pub mod Engine
pub mod Sound
pub mod Subscriptions
pub mod Lifetimes
pub mod ImStill
pub mod Syncs
pub mod Reach
pub mod Joins
pub mod Delivery
pub mod Handlers
pub mod Admissions
pub mod Departures
pub mod Goodbyes
pub mod History
pub mod RoomSound
mod Tests
mod Runs
