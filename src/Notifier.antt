-- ===== src/Notifier.antt =====
-- src/fuser_facade/notifier.rs: notifications.
pub mod Wire
pub mod Messages
pub mod Decoding
pub mod RoundTrip
pub mod Errors
