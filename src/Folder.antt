-- ===== src/Folder.antt =====
-- Folders: app/routes/folders.py.
pub mod Routes
pub mod Walks
pub mod Forest
pub mod Removal
pub mod Seen
pub mod Moves
pub mod Steps
pub mod Requests
pub mod Chains
pub mod Paths
pub mod Tests
