-- ===== src/Execution.antt =====
-- Executions: app/services/execution_history_service.py, app/services/trigger_execution_service.py
-- and the webhook handlers of app/routes/webhooks.py.
pub mod History
pub mod World
pub mod Trigger
pub mod Outcomes
pub mod Completion
pub mod Sound
pub mod Reports
pub mod Events
pub mod Tests
