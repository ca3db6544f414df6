-- ===== src/Service/ToolRuns.antt =====
-- Tool runs (backend/app/services/company.py).
pub mod Execution
pub mod Request
pub mod Waiting
pub mod Decision
pub mod Risk
pub mod Blind
pub mod Gate
pub mod Revalidation
pub mod Reach
pub mod Completion
