-- ===== src/Access.antt =====
-- app/services/access_service.py: who may do what to which resource.
pub mod Data
pub mod Hierarchy
pub mod Queries
pub mod Roles
pub mod Agreement
pub mod Termination
pub mod Listing
mod Tests
