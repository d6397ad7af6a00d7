-- ===== src/Core.antt =====
-- The domain types of crates/light-stream-core.
pub mod Identity
pub mod Error
pub mod Cursor
pub mod Bookmark
pub mod Publish
pub mod Checkpoint
pub mod Replay
pub mod Security
pub mod Operations
pub mod Catalog
