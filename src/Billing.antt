-- ===== src/Billing.antt =====
-- app/services/billing_service.py, app/deps/billing.py and app/routes/billing.py.
pub mod Data
pub mod Plan
pub mod Lifecycle
pub mod Webhook
pub mod Route
pub mod Entitlement
pub mod Constraints
pub mod Settling
pub mod Idempotence
pub mod Runs
pub mod Turns
pub mod Outcomes
pub mod Limits
pub mod Accounts
pub mod Counts
pub mod Enforcement
pub mod Sync
pub mod TierSync
pub mod OrganizationRow
pub mod Agreement
mod Tests
