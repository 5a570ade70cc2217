-- ===== src/Utils.antt =====
-- kernel/src/utils: what the rest of the kernel has in place of a C library.
pub mod Mem
