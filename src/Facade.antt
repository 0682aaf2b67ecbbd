-- ===== src/Facade.antt =====
-- The fuser facade.
pub mod Errno
pub mod Types
pub mod Buffers
pub mod Filling
pub mod Kernel
pub mod Settings
