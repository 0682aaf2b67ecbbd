-- ===== src/Memfs.antt =====
-- examples/memfs: a file system in memory, the repository's example of the trait `Filesystem`.
pub mod Nodes
pub mod Storage
pub mod Methods
pub mod Names
pub mod Listing
pub mod Service
pub mod Tables
pub mod Tree
pub mod Allowed
pub mod Contents
pub mod Linked
pub mod Kept
pub mod Entered
pub mod Renaming
pub mod Invariant
pub mod Resuming
pub mod Described
pub mod Collecting
pub mod Adapted
