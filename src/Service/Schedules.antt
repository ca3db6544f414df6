-- ===== src/Service/Schedules.antt =====
-- Schedules (backend/app/scheduler/store.py, and the methods on schedules of
-- backend/app/services/company.py).
pub mod Control
pub mod Running
pub mod Ticks
pub mod Limits
pub mod Invariant
pub mod Frame
pub mod Operations
pub mod Due
pub mod Listing
pub mod Ticking
pub mod Reachable
pub mod Executed
pub mod Exactness
pub mod Replay
mod Tests
