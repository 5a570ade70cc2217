-- ===== src/Core/Elf/Loading.antt =====
-- The loading of kernel/src/core/elf.c: the pages and the memory of the segments.
pub mod Filling
pub mod Mapped
pub mod Calls
pub mod Ends
use alephos.Prelude.{
  ℕ, zero, suc, ◌+◌, ◌-◌, ◌*◌, ◌/◌, ◌%◌, ◌^◌, ◌≤◌, ◌<◌, min, max, bit_and, bit_or, bit_xor,
}
use alephos.Prelude.{
  ◌≡◌, refl, sym, ap, ap₂, ◌∙◌, subst, ◌≢◌, ◌↔◌, ◌⊎◌, inl, inr, Bool, true, false, not, ◌&&◌, ◌||◌,
}
use alephos.Prelude.{Option, none, some, List, [], ◌∷◌, ◌++◌, append-nil, append_assoc, arith}
use alephos.Prelude.{
  ltb, leb, ◌==◌, if◌then◌else◌, is_some, Bool-cases, Option-cases, if_both, ltb→lt, ltb→le, lt→ltb,
  ==→eq, ==→ne, eq→==, ne→==,
}
use alephos.Prelude.{
  length, get_elem?, get_or, set, take, drop, replicate, length-append, length-set,
  length-replicate, length-take, length-drop, take-append-drop, get_or-set_self, get_or-set_ne,
  get_or-replicate, set-get_or, set-set, take-ge, drop-ge, take-of_append, drop-of_append,
}
use alephos.Prelude.{u8, u16, u32, u64, sub32, sub64}
use alephos.Prelude.{◌>>=◌}
use alephos.Utils.Mem.{Memory, memset, memcpy}
use alephos.Mm.Heap.{Pages}
use alephos.Core.Elf.{
  Ehdr, LoadError, load_success, invalid_magic, unsupported_class, unsupported_machine,
  invalid_file_type, segment_overlap, memory_allocation, segment_mapping, data_truncated, succeeds,
  SegmentInfo, ehdr, pf_w, pf_x, page_offset, validate_elf_header, collect_segment_info,
}

-- The bytes by their address, which pages are mapped, by their number, and the state of the page
-- allocator and the page tables
pub record Machine (S : Type 0) : Type 0 where
  pub bytes : Memory
  pub mapped : ℕ → Bool
  pub pages : S

-- The page of this address is mapped too.
pub mark_mapped : ℕ → (ℕ → Bool) → ℕ → Bool
mark_mapped a mapped page = (page == a / 4096) || mapped page

-- Whether `n` pages from number `page` on are mapped
pub all_mapped : ℕ → ℕ → (ℕ → Bool) → Bool
all_mapped zero page mapped = true
all_mapped (suc n) page mapped = mapped page && all_mapped n (page + 1) mapped

-- Whether every page of the `n` bytes at `a` is mapped
pub reachable : ℕ → ℕ → (ℕ → Bool) → Bool
unfolding all_mapped
reachable a n mapped = (n == 0) || all_mapped ((a % 4096 + n + 4095) / 4096) (a / 4096) mapped

-- PTE_PRESENT | PTE_USER, and PTE_WRITABLE for a segment that may be written or executed
pub segment_page_flags : ℕ → ℕ
segment_page_flags f =
    let w = if bit_and f pf_w == 0 then 5 else bit_or 5 2 in
    if bit_and f pf_x == 0 then w else bit_or w 2

-- The number of rounds of the loop over the pages of a segment, whose bounds are multiples of a page
pub page_count : SegmentInfo → ℕ
page_count s = (s.vaddr_end - s.vaddr_start) / 4096

-- The bytes of memory once a segment is zeroed and its bytes of the file are copied
pub fill_bytes : Memory → ℕ → SegmentInfo → Memory
unfolding memset memcpy
fill_bytes m elf s =
    let zeroed = memset m s.vaddr_start 0 (sub64 s.vaddr_end s.vaddr_start) in
    if ltb 0 s.file_size
    then memcpy zeroed (u64 (s.vaddr_start + page_offset s.vaddr_start)) (u64 (elf + s.file_offset))
        s.file_size
    else zeroed

-- What becomes of the memory of a segment once its pages are mapped: `none` where `memset` or
-- `memcpy` writes to a page that is not mapped.
pub fill_segment : (ℕ → Bool) → Memory → ℕ → SegmentInfo → Option Memory
unfolding fill_bytes reachable
fill_segment mapped m elf s =
    if reachable s.vaddr_start (sub64 s.vaddr_end s.vaddr_start) mapped
      && reachable (u64 (s.vaddr_start + page_offset s.vaddr_start)) s.file_size mapped
    then some (fill_bytes m elf s)
    else none

-- `touch page s m` is memory once a page is taken and mapped at `page`: the bitmap and the tables
-- are written, and the page shows what its frame held.
module _ (P : Pages) (touch : ℕ → P.State → Memory → Memory) where
  open P use {State, alloc_page, map_page}

  map_one : ℕ → ℕ → Option ℕ × State → Machine State → LoadError × Machine State
  unfolding mark_mapped
  map_one page flags (none, s) k = (memory_allocation, record k { pages = s })
  map_one page flags (some phys, s) k =
      let (done, s') = map_page page phys flags s in
      (
        if done then load_success else segment_mapping,
        record {
          bytes = touch page s' k.bytes;
          mapped = if done then mark_mapped page k.mapped else k.mapped;
          pages = s';
        },
      )

  -- The pages of a segment from `page` on, `n` of them.
  pub map_pages : ℕ → ℕ → ℕ → Machine State → LoadError × Machine State
  unfolding map_one
  map_pages zero page flags k = (load_success, k)
  map_pages (suc n) page flags k =
      let (e, k') = map_one page flags (alloc_page k.pages) k in
      let rest = map_pages n (page + 4096) flags k' in if succeeds e then rest else (e, k')

  -- `none` is a fault of a page.
  pub map_segments : ℕ → List SegmentInfo → Machine State → Option (LoadError × Machine State)
  unfolding map_pages fill_segment segment_page_flags page_count
  map_segments elf [] k = some (load_success, k)
  map_segments elf (s ∷ ss) k =
      let (e, k') = map_pages (page_count s) s.vaddr_start (segment_page_flags s.flags) k in
      let rest = fill_segment k'.mapped k'.bytes elf s >>= λ m.
      map_segments elf ss (record k' { bytes = m }) in
      if succeeds e then rest else some (e, k')

  -- `*entry_point = e`, unless it is NULL
  pub set_entry : Option ℕ → ℕ → Option ℕ
  set_entry none e = none
  set_entry (some old) e = some e

  -- `elf_load_executable` from the segments on. The entry point is read again at the end.
  load_collected :
      ℕ
      → Option ℕ
      → Machine State
      → LoadError ⊎ List SegmentInfo
      → Option (LoadError × Option ℕ × Machine State)
  unfolding map_segments ehdr set_entry
  load_collected elf entry k (inl e) = some (e, entry, k)
  load_collected elf entry k (inr segments) = map_segments elf segments k >>= λ r. some (
      if succeeds r.0
      then (r.0, set_entry entry (ehdr r.1.bytes elf).e_entry, r.1)
      else (r.0, entry, r.1))

  -- With the place for the entry point, or NULL. `none` is undefined behaviour.
  pub elf_load_executable :
      ℕ → ℕ → Option ℕ → Machine State → Option (LoadError × Option ℕ × Machine State)
  unfolding validate_elf_header ehdr collect_segment_info load_collected
  elf_load_executable elf size entry k =
      let h = ehdr k.bytes elf in
      let e = validate_elf_header h size in
      let run : Option (LoadError × Option ℕ × Machine State) =
        collect_segment_info k.bytes elf size >>= λ r. load_collected elf entry k r in
      if succeeds e then run else some (e, entry, k)
