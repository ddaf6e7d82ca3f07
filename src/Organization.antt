-- ===== src/Organization.antt =====
-- Organizations: app/routes/organizations.py and the queries of app/utils/query_helpers.py.
pub mod Data
pub mod Routes
pub mod Owners
pub mod Steps
pub mod Changes
pub mod Growth
pub mod Requests
pub mod Powers
pub mod Tests
