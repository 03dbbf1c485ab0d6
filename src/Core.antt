-- ===== src/Core.antt =====
-- The package core: what both programs share.
pub mod Errors
pub mod Messages
pub mod Conn
pub mod Wire
pub mod Receiver
