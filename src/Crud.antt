-- ===== src/Crud.antt =====
-- The generic endpoints of app/services/crud_helpers.py.
pub mod Helper
pub mod Hidden
pub mod Tests
