-- ===== src/Tty.antt =====
-- kernel/src/core/drivers/tty: pipes and terminals.
pub mod Pipe
pub mod CharRing
pub mod Terminal
pub mod Devices
