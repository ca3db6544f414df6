-- ===== src/Core/Models.antt =====
-- backend/app/core/models.py: the dataclasses, by what they are about.
pub mod Catalog
pub mod Control
pub mod Work
pub mod Schedule
pub mod Messages
pub mod Budget
