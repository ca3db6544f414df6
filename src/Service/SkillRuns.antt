-- ===== src/Service/SkillRuns.antt =====
-- Skill runs (backend/app/services/company.py, and the input check of
-- backend/app/skills/runtime.py).
pub mod Input
pub mod Execution
pub mod Request
pub mod Waiting
pub mod Completion
pub mod Blind
pub mod Admission
pub mod Gate
pub mod Once
mod Tests
