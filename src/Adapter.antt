-- ===== src/Adapter.antt =====
-- src/dokan_impl/adapter: Dokan's callbacks as calls of the mounted file system.
pub mod Calls
pub mod World
pub mod Paths
pub mod Ledger
pub mod Untouched
pub mod Walk
pub mod Monad
pub mod Operations
pub mod Planning
pub mod Remap
pub mod Remapped
pub mod Keeps
pub mod Requests
pub mod Create
pub mod Handlers
pub mod Settled
pub mod Callbacks
pub mod Balanced
