-- ===== src/Adapter/Settled.antt =====
-- src/dokan_impl/adapter: the callbacks and the counts of lookups.
pub mod Dispatch
pub mod Metadata
pub mod Create
pub mod Locks
pub mod Security
pub mod Directory
pub mod Listing
pub mod Pattern
