-- ===== src/Mount.antt =====
-- src/dokan_impl/mount_options.rs: mount options.
pub mod Words
pub mod Options
pub mod Parsing
pub mod Flags
