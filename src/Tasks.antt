-- ===== src/Tasks.antt =====
-- The tasks: their records, the state machine, the store and the engine.
pub mod Types
pub mod Machine
pub mod Store
pub mod Assignments
pub mod Engine
pub mod Dispatch
pub mod Turns
pub mod Keeps
pub mod Moves
pub mod Methods
pub mod History
pub mod Effects
pub mod Routes
mod Tests
