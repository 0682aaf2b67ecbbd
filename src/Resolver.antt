-- ===== src/Resolver.antt =====
-- src/dokan_impl/adapter/state.rs: the cache of resolved paths, and the lookups that it owes.
pub mod State
pub mod Path
pub mod Refs
pub mod Ops
pub mod Attrs
pub mod Invalidate
pub mod Balance
pub mod Remembering
pub mod Accounts
pub mod Invariant
pub mod Stores
pub mod History
pub mod Hits
pub mod Removal
pub mod Notify
pub mod Answers
pub mod Normal
