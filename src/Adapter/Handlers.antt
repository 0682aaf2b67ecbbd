-- ===== src/Adapter/Handlers.antt =====
-- src/dokan_impl/adapter/handler_methods: Dokan's callbacks.
pub mod Dispatch
pub mod Metadata
pub mod Locks
pub mod Security
pub mod Streams
pub mod Directory
