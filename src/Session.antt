-- ===== src/Session.antt =====
-- src/fuser_facade/session.rs: a session from its configuration to its end.
pub mod Configured
pub mod Lifecycle
pub mod Threads
pub mod Ending
