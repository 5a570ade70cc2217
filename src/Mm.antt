-- ===== src/Mm.antt =====
-- kernel/src/mm: physical pages, page tables and the kernel heap.
pub mod Heap
pub mod Pmm
pub mod Vmm
