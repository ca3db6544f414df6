-- ===== src/Gateway/Route.antt =====
-- The route of a model call, and the rates that its budget check goes by
-- (backend/app/models/gateway.py: `_generation_attempts`, `budget_rates`).
mod Defs
mod Laws
unfoldable pub use Defs.*
pub use Laws.*
