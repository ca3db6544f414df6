-- ===== src/Safety.antt =====
-- The gates that every request passes: backend/app/safety/risk.py and
-- backend/app/permissions/engine.py.
pub mod Policy
pub mod Risk
pub mod Permissions
pub mod Gates
mod Tests
