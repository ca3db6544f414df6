-- ===== src/Catalog.antt =====
-- The catalogs that the program boots with.
pub mod Agents
pub mod Skills
pub mod Tools
pub mod Workflows
mod Tests
