-- ===== src/Helpers.antt =====
-- src/dokan_impl/helpers.rs and its children: the pure functions of the adapter.
pub mod Codes
pub mod Names
pub mod Ranges
pub mod Volume
pub mod Splitting
pub mod Security
