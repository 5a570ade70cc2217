-- ===== src/Mm/Heap.antt =====
-- kernel/src/mm/heap.c and heap.h: the block list behind malloc. The headers are a function of the
-- block's address, apart from the bytes that the blocks hold; the two bits of `flags` are `free` and `last`.
-- The pages come from an interface to kernel/src/mm/pmm.c and vmm.c.
pub mod Calls
pub mod Cells
pub mod Splitting
pub mod Layouts
pub mod Merging
pub mod Freeing
use alephos.Prelude.{
  ℕ, zero, suc, ◌+◌, ◌-◌, ◌*◌, ◌/◌, ◌%◌, ◌^◌, ◌≤◌, ◌<◌, min, max, bit_and, bit_or, bit_xor,
}
use alephos.Prelude.{
  ◌≡◌, refl, sym, ap, ap₂, ◌∙◌, subst, ◌≢◌, ◌↔◌, ◌⊎◌, inl, inr, Bool, true, false, not, ◌&&◌, ◌||◌,
}
use alephos.Prelude.{Option, none, some, List, [], ◌∷◌, ◌++◌, append-nil, append_assoc, arith}
use alephos.Prelude.{
  ltb, leb, ◌==◌, if◌then◌else◌, is_some, Bool-cases, Option-cases, if_both, ltb→lt, ltb→le, lt→ltb,
  ==→eq, ==→ne, eq→==, ne→==,
}
use alephos.Prelude.{
  length, get_elem?, get_or, set, take, drop, replicate, length-append, length-set,
  length-replicate, length-take, length-drop, take-append-drop, get_or-set_self, get_or-set_ne,
  get_or-replicate, set-get_or, set-set, take-ge, drop-ge, take-of_append, drop-of_append,
}
use alephos.Prelude.{u8, u16, u32, u64, sub32, sub64}
use alephos.Prelude.{◌>>=◌}
use alephos.Utils.Mem.{Memory, memcpy}

abbrev pub heap_block_magic : ℕ
heap_block_magic = 0x1BADB002

abbrev pub heap_page_size : ℕ
heap_page_size = 4096

-- `sizeof(struct heap_block)`, which is packed
abbrev pub header_size : ℕ
header_size = 28

-- PTE_PRESENT | PTE_WRITABLE
abbrev pub page_flags : ℕ
page_flags = 3

-- What the heap asks of the page allocator and of the page tables.
pub record Pages : Type 1 where
  pub State : Type 0
  pub alloc_page : State → Option ℕ × State
  pub free_page : ℕ → State → State
  pub map_page : ℕ → ℕ → ℕ → State → Bool × State
  pub unmap_page : ℕ → State → State

-- `struct heap_block` less its data
pub record Header : Type 0 where
  pub magic : ℕ
  pub size : ℕ
  pub free : Bool
  pub last : Bool
  pub next : Option ℕ
  pub prev : Option ℕ

-- `struct heap_stats`
pub record Stats : Type 0 where
  pub total_size : ℕ
  pub used_size : ℕ
  pub free_size : ℕ
  pub total_blocks : ℕ
  pub free_blocks : ℕ

abbrev pub Headers : Type 0
Headers = ℕ → Header

pub store : Headers → ℕ → Header → Headers
store m a h b = if a == b then h else m b

-- `p->prev = q`, unless `p` is NULL
pub set_prev : Headers → Option ℕ → ℕ → Headers
unfolding store
set_prev m none q = m
set_prev m (some p) q = store m p (record (m p) { prev = some q })

-- `find_free_block` from `current` on; `none` while the loop has not ended.
pub find_free_block : ℕ → Headers → Option ℕ → ℕ → Option (Option ℕ)
find_free_block zero m current size = none
find_free_block (suc fuel) m none size = some none
find_free_block (suc fuel) m (some a) size =
    let rest = find_free_block fuel m (m a).next size in
    if (m a).free && leb (u64 (size + header_size)) (m a).size
    then some (some a)
    else (if (m a).last then some none else rest)

-- The walk of `expand_heap` to the last block; `none` too where the list ends without one.
pub find_last : ℕ → Headers → Option ℕ → Option ℕ
find_last zero m current = none
find_last (suc fuel) m none = none
find_last (suc fuel) m (some a) =
    let rest = find_last fuel m (m a).next in if (m a).last then some a else rest

abbrev pub Layout : Type 0
Layout = Headers × Stats

pub split_block : ℕ → ℕ → Layout → Layout
unfolding store set_prev
split_block a size (m, stats) =
    let block = m a in
    let remaining = sub64 (sub64 block.size size) header_size in
    let at = u64 (a + size + header_size) in
    let m1 = store m at (record {
      magic = heap_block_magic;
      size = u32 remaining;
      free = true;
      last = block.last;
      next = block.next;
      prev = some a;
    }) in
    let m2 = set_prev m1 block.next at in
    let m3 =
      store m2 a
        (record (m2 a) { next = some at; size = u32 (size + header_size); last = false }) in
    if ltb remaining header_size then (m, stats) else (
      m3,
      record stats {
        total_blocks = u64 (stats.total_blocks + 1);
        free_blocks = u64 (stats.free_blocks + 1);
      },
    )

-- One round of `merge_free_blocks`: block `b` goes into block `a` before it.
pub absorb : ℕ → ℕ → Layout → Layout
unfolding store set_prev
absorb a b (m, stats) =
    let m1 = store m a (record (m a) {
      size = u32 ((m a).size + (m b).size);
      last = (m a).last || (m b).last;
      next = (m b).next;
    }) in
    (
      set_prev m1 (m b).next a,
      record stats {
        total_blocks = sub64 stats.total_blocks 1;
        free_blocks = sub64 stats.free_blocks 1;
      },
    )

-- Whether the block that the link leads to is free.
pub leads_free : Headers → Option ℕ → Option ℕ
leads_free m none = none
leads_free m (some b) = if (m b).free then some b else none

pub merge_free_blocks : ℕ → ℕ → Layout → Option Layout
unfolding absorb leads_free
merge_free_blocks zero a l = none
merge_free_blocks (suc fuel) a l = elim (leads_free l.0 (l.0 a).next) [
  | none ↦ some l
  | some b ↦ merge_free_blocks fuel a (absorb a b l)
]

pub record Heap (S : Type 0) : Type 0 where
  pub heap_start : Option ℕ
  pub headers : Headers
  pub statistics : Stats
  pub bytes : Memory
  pub pages : S

abbrev pub layout : {S : Type 0} → Heap S → Layout
layout h = (h.headers, h.statistics)

pub with_layout : {S : Type 0} → Heap S → Layout → Heap S
with_layout h l = record h { headers = l.0; statistics = l.1 }

-- `block->flags &= ~BLOCK_FREE` and the statistics of `heap_alloc`
pub take_block : ℕ → Layout → Layout
unfolding store
take_block a (m, stats) = (
  store m a (record (m a) { free = false }),
  record stats {
    used_size = u64 (stats.used_size + (m a).size);
    free_size = sub64 stats.free_size (m a).size;
    free_blocks = sub64 stats.free_blocks 1;
  },
)

-- `block->flags |= BLOCK_FREE` and the statistics of `heap_free`
pub give_block : ℕ → Layout → Layout
unfolding store
give_block a (m, stats) = (
  store m a (record (m a) { free = true }),
  record stats {
    used_size = sub64 stats.used_size (m a).size;
    free_size = u64 (stats.free_size + (m a).size);
    free_blocks = u64 (stats.free_blocks + 1);
  },
)

-- The rest of `heap_free` for the block before, if there is one and it is free.
pub merge_into : ℕ → Option ℕ → Layout → Option Layout
unfolding leads_free
merge_into fuel before l = elim (leads_free l.0 before) [
  | none ↦ some l
  | some a ↦ merge_free_blocks fuel a l
]

-- `heap_free` of a block, from its header on
pub free_block : ℕ → ℕ → Layout → Option Layout
unfolding give_block
free_block fuel a l =
    if (l.0 a).magic == heap_block_magic
    then (merge_free_blocks fuel a (give_block a l) >>= λ l'. merge_into fuel (l'.0 a).prev l')
    else some l

-- `heap_free`
pub free : {S : Type 0} → ℕ → Option ℕ → Heap S → Option (Heap S)
unfolding free_block with_layout
free fuel none h = some h
free fuel (some ptr) h =
    free_block fuel (sub64 ptr header_size) (layout h) >>= λ l. some (with_layout h l)
