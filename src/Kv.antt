-- ===== src/Kv.antt =====
-- app/routes/kv_store.py: the key-value store that workflows share.
pub mod Data
pub mod Names
pub mod Store
pub mod Routes
pub mod Syntax
pub mod Items
pub mod Writes
pub mod Readback
pub mod Deletion
mod Tests
