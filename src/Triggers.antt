-- ===== src/Triggers.antt =====
-- The triggers of a workflow: app/services/trigger_service.py.
pub mod Sync
pub mod Protection
pub mod Requests
pub mod Needed
pub mod Tests
