-- ===== src/Core.antt =====
-- kernel/src/core: processes, the loader of executables, IP packets and the real-time clock.
pub mod Elf
pub mod Ip
pub mod Process
pub mod Rtc
