-- ===== src/Filesystem.antt =====
-- The in-memory file system of kernel/filesystem.c.
pub mod Paths
pub mod Files
pub mod Removal
pub mod Listing
pub mod Tree
pub mod Lookup
pub mod Growth
pub mod Making
pub mod Mkdir
pub mod Orphan
pub mod Touch
pub mod Same
pub mod Content
pub mod Boot
mod Tests
