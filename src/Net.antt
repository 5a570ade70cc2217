-- ===== src/Net.antt =====
-- kernel/src/net: the resolver of names.
pub mod Dns
