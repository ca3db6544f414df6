-- ===== src/Core.antt =====
-- The data model (backend/app/core).
pub mod Time
pub mod Json
pub mod Enums
pub mod Values
pub mod Models
