-- ===== src/Mm/Heap/Calls.antt =====
-- kernel/src/mm/heap.c: heap_init, expand_heap, heap_alloc, heap_realloc and heap_check, over
-- an interface to the pages. A walk along the list has its fuel as an argument.
pub mod Searching
pub mod Growing
pub mod Promises
pub mod Expanding
pub mod Allocating
pub mod Checking
pub mod Keeping
mod Tests
use alephos.Prelude.{
  ℕ, zero, suc, ◌+◌, ◌-◌, ◌*◌, ◌/◌, ◌%◌, ◌^◌, ◌≤◌, ◌<◌, min, max, bit_and, bit_or, bit_xor,
}
use alephos.Prelude.{
  ◌≡◌, refl, sym, ap, ap₂, ◌∙◌, subst, ◌≢◌, ◌↔◌, ◌⊎◌, inl, inr, Bool, true, false, not, ◌&&◌, ◌||◌,
}
use alephos.Prelude.{Option, none, some, List, [], ◌∷◌, ◌++◌, append-nil, append_assoc, arith}
use alephos.Prelude.{
  ltb, leb, ◌==◌, if◌then◌else◌, is_some, Bool-cases, Option-cases, if_both, ltb→lt, ltb→le, lt→ltb,
  ==→eq, ==→ne, eq→==, ne→==,
}
use alephos.Prelude.{
  length, get_elem?, get_or, set, take, drop, replicate, length-append, length-set,
  length-replicate, length-take, length-drop, take-append-drop, get_or-set_self, get_or-set_ne,
  get_or-replicate, set-get_or, set-set, take-ge, drop-ge, take-of_append, drop-of_append,
}
use alephos.Prelude.{u8, u16, u32, u64, sub32, sub64}
use alephos.Prelude.{◌>>=◌}
use alephos.Utils.Mem.{memcpy}
use alephos.Mm.Heap.{
  Heap, Header, Headers, Layout, Stats, Pages, layout, with_layout, heap_block_magic,
  heap_page_size, header_size, page_flags, store, find_free_block, find_last, split_block,
  merge_free_blocks, take_block, free_block, free, leads_free,
}

-- Appends a block of `size` bytes behind the block `a`, which was the last one.
pub append_block : ℕ → ℕ → Layout → ℕ × Layout
unfolding store
append_block a size (m, stats) =
    let at = u64 (a + (m a).size) in
    let m1 = store m at (record {
      magic = heap_block_magic;
      size = u32 size;
      free = true;
      last = true;
      next = none;
      prev = some a;
    }) in
    let m2 = store m1 a (record (m1 a) { last = false; next = some at }) in
    (
      at,
      (
        m2,
        record stats {
          total_size = u64 (stats.total_size + u32 size);
          free_size = u64 (stats.free_size + u32 size);
          total_blocks = u64 (stats.total_blocks + 1);
          free_blocks = u64 (stats.free_blocks + 1);
        },
      ),
    )

module _ (P : Pages) where
  open P use {State, alloc_page, free_page, map_page, unmap_page}

  -- Maps a page that the allocator gave, if it gave one.
  map_given : ℕ → Option ℕ × State → Bool × State
  map_given virt (none, s) = (false, s)
  map_given virt (some phys, s) = map_page virt phys page_flags s

  -- The clean-up: unmaps the pages from the `j`th on, `n` of them.
  unmap_from : ℕ → ℕ → ℕ → State → State
  unmap_from zero j base s = s
  unmap_from (suc n) j base s =
      unmap_from n (j + 1) base (unmap_page (u64 (base + j * heap_page_size)) s)

  -- Maps the `n` pages from the `i`th on.
  map_from : ℕ → ℕ → ℕ → State → Bool × State
  unfolding map_given unmap_from
  map_from zero i base s = (true, s)
  map_from (suc n) i base s =
      let (mapped, s') = map_given (u64 (base + i * heap_page_size)) (alloc_page s) in
      let rest = map_from n (i + 1) base s' in
      if mapped then rest else (false, unmap_from i 0 base s')

  pages_needed : ℕ → ℕ
  pages_needed size = u64 (size + header_size + heap_page_size - 1) / heap_page_size

  -- `expand_heap` once the last block is known.
  expand_behind : ℕ → ℕ → Heap State → Option ℕ × Heap State
  unfolding map_from pages_needed append_block with_layout
  expand_behind size a h =
      let n = pages_needed size in
      let (mapped, s) = map_from n 0 (u64 (a + (h.headers a).size)) h.pages in
      let (at, l) = append_block a (n * heap_page_size) (layout h) in
      if mapped
      then (some at, with_layout (record h { pages = s }) l)
      else (none, record h { pages = s })

  -- The page that is asked for first is not used.
  expand_from : ℕ → ℕ → Option ℕ × State → Heap State → Option (Option ℕ × Heap State)
  unfolding expand_behind find_last
  expand_from fuel size (none, s) h = some (none, record h { pages = s })
  expand_from fuel size (some unused, s) h = find_last fuel h.headers h.heap_start >>= λ a.
      some (expand_behind size a (record h { pages = s }))

  pub expand_heap : ℕ → ℕ → Heap State → Option (Option ℕ × Heap State)
  unfolding expand_from
  expand_heap fuel size h = expand_from fuel size (alloc_page h.pages) h

  -- What is done with the block that was found; the pointer is behind its header.
  finish_alloc : ℕ → Option ℕ × Heap State → Option ℕ × Heap State
  unfolding split_block take_block with_layout
  finish_alloc size (none, h) = (none, h)
  finish_alloc size (some a, h) =
      (some (u64 (a + header_size)), with_layout h (take_block a (split_block a size (layout h))))

  -- The block that was found, or a new one.
  pub or_expand : ℕ → ℕ → Option ℕ → Heap State → Option (Option ℕ × Heap State)
  unfolding expand_heap
  or_expand fuel size none h = expand_heap fuel size h
  or_expand fuel size (some a) h = some (some a, h)

  -- `(size + 7) & ~7`
  abbrev pub align8 : ℕ → ℕ
  align8 size = u64 (size + 7) / 8 * 8

  pub alloc : ℕ → ℕ → Heap State → Option (Option ℕ × Heap State)
  unfolding or_expand finish_alloc find_free_block
  alloc fuel zero h = some (none, h)
  alloc fuel (suc n) h = do
    let size = align8 (suc n)
    found ← find_free_block fuel h.headers h.heap_start size
    r ← or_expand fuel size found h
    some (finish_alloc size r)

  -- The last way of `heap_realloc`: a new block.
  move_block : ℕ → ℕ → ℕ → Option ℕ × Heap State → Option (Option ℕ × Heap State)
  unfolding memcpy free
  move_block fuel ptr old_size (none, h) = some (none, h)
  move_block fuel ptr old_size (some q, h) = do
    h' ← free fuel (some ptr) (record h { bytes = memcpy h.bytes q ptr old_size })
    some (some q, h')

  -- The size of the next block, if it is free.
  free_after : Headers → ℕ → Option ℕ
  unfolding leads_free
  free_after m a = elim (leads_free m (m a).next) [ none ↦ none | some b ↦ some (m b).size ]

  -- `heap_realloc` of a block, from its header on
  realloc_block : ℕ → ℕ → ℕ → ℕ → Heap State → Option (Option ℕ × Heap State)
  unfolding split_block merge_free_blocks move_block free_after alloc with_layout
  realloc_block fuel a ptr size h =
      let m = h.headers in
      let old_size = sub64 (m a).size header_size in
      let grows : Bool = elim (free_after m a) [
        | none ↦ false
        | some more ↦ leb (u64 (size + header_size)) (u32 ((m a).size + more))
      ] in
      if not ((m a).magic == heap_block_magic)
      then some (none, h)
      else (if leb size old_size
          then some (some ptr, with_layout h (split_block a size (layout h)))
          else (if grows
              then (merge_free_blocks fuel a (layout h) >>= λ l.
                  some (some ptr, with_layout h (split_block a size l)))
              else (alloc fuel size h >>= λ r. move_block fuel ptr old_size r)))

  pub realloc : ℕ → Option ℕ → ℕ → Heap State → Option (Option ℕ × Heap State)
  unfolding realloc_block alloc free
  realloc fuel none size h = alloc fuel size h
  realloc fuel (some ptr) zero h = free fuel (some ptr) h >>= λ h'. some (none, h')
  realloc fuel (some ptr) (suc n) h = realloc_block fuel (sub64 ptr header_size) ptr (suc n) h

  -- `heap_init` with the page that it was given; the other parts of the heap are those of before.
  init_at : Option ℕ × State → Heap State → Bool × Heap State
  unfolding store
  init_at (none, s) h = (false, record h { pages = s })
  init_at (some at, s) h =
      let (mapped, s') = map_page at at page_flags s in
      if mapped
      then (
        true,
        record h {
          heap_start = some at;
          headers = store h.headers at (record {
            magic = heap_block_magic;
            size = heap_page_size;
            free = true;
            last = true;
            next = none;
            prev = none;
          });
          statistics = record {
            total_size = heap_page_size;
            used_size = 0;
            free_size = heap_page_size;
            total_blocks = 1;
            free_blocks = 1;
          };
          pages = s';
        },
      )
      else (false, record h { pages = free_page at s' })

  pub init : Heap State → Bool × Heap State
  unfolding init_at
  init h = init_at (alloc_page h.pages) h

-- The counts of `heap_check` so far.
add_block : Header → Stats → Stats
add_block b t = record t {
  total_size = u64 (t.total_size + b.size);
  used_size = if b.free then t.used_size else u64 (t.used_size + b.size);
  free_size = if b.free then u64 (t.free_size + b.size) else t.free_size;
  total_blocks = u64 (t.total_blocks + 1);
  free_blocks = if b.free then u64 (t.free_blocks + 1) else t.free_blocks;
}

-- Whether a link back is the one that the block before has; no link is right.
back_ok : Headers → ℕ → Option ℕ → Bool
back_ok m a none = true
back_ok m a (some b) = elim (m b).prev [ none ↦ false | some c ↦ c == a ]

forth_ok : Headers → ℕ → Option ℕ → Bool
forth_ok m a none = true
forth_ok m a (some b) = elim (m b).next [ none ↦ false | some c ↦ c == a ]

-- The loop of `heap_check`: `none` while it has not ended, `some none` where it finds a fault.
pub check_from : ℕ → Headers → Option ℕ → Stats → Option (Option Stats)
unfolding add_block back_ok forth_ok
check_from zero m current t = none
check_from (suc fuel) m none t = some (some t)
check_from (suc fuel) m (some a) t =
    let b = m a in
    let t' = add_block b t in
    let rest = check_from fuel m b.next t' in
    if not (b.magic == heap_block_magic) || not (back_ok m a b.next && forth_ok m a b.prev)
    then some none
    else (if b.last then some (some t') else rest)

abbrev pub no_blocks : Stats
no_blocks = record {
  total_size = 0;
  used_size = 0;
  free_size = 0;
  total_blocks = 0;
  free_blocks = 0;
}

same_stats : Stats → Stats → Bool
same_stats s t =
    (s.total_size == t.total_size)
    && (s.used_size == t.used_size)
    && (s.free_size == t.free_size)
    && (s.total_blocks == t.total_blocks)
    && (s.free_blocks == t.free_blocks)

-- `heap_check`
pub check : {S : Type 0} → ℕ → Heap S → Option Bool
unfolding check_from same_stats
check fuel h = check_from fuel h.headers h.heap_start no_blocks >>= λ r.
    some (elim r [ none ↦ false | some t ↦ same_stats t h.statistics ])
