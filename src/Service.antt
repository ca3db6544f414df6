-- ===== src/Service.antt =====
-- backend/app/services/company.py: `CompanyApplicationService`, by groups of methods.
pub mod State
pub mod Actions
pub mod Models
pub mod Alerts
pub mod Records
pub mod Embeddings
pub mod ToolApproval
pub mod ToolRuns
pub mod Incidents
pub mod SkillRuns
pub mod Schedules
pub mod Registration
pub mod BudgetPolicy
pub mod ActionRequests
mod Sample
mod Tests
