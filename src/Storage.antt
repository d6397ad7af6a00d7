-- ===== src/Storage.antt =====
-- The replicated group state of crates/light-stream-storage.
pub mod Keys
pub mod Retention
pub mod Result
pub mod State
pub mod Sessions
pub mod Mutations
pub mod Checkpoints
pub mod Publish
pub mod Exports
pub mod Leases
pub mod Reclaim
pub mod Floor
pub mod Bootstrap
pub mod Fetch
pub mod Dispatch
pub mod Bookmarks
pub mod Catalog
