-- ===== src/VersionedStore.antt =====
-- The versioned storage of spectrum-view/src/versioned_avl_storage/versioned_storage.rs.
pub mod Undo
pub mod Store
pub mod Entries
pub mod Keys
pub mod Updates
pub mod Rollback
pub mod RoundTrip
pub mod Latest
mod Examples
