-- ===== src/Mm/Pmm.antt =====
-- kernel/src/mm/pmm.c: the allocator of physical pages, one bit of a bitmap for each page.
-- The static variables are a record. `bitmap` is the words at the bitmap's address; it is empty
-- as long as that is NULL, and a write past its end is dropped.
pub mod Bitmap
pub mod Count
pub mod Search
pub mod Alloc
pub mod Release
pub mod Ownership
pub mod Sweep
pub mod Init
pub mod Tests
use alephos.Prelude.{
  ℕ, zero, suc, ◌+◌, ◌-◌, ◌*◌, ◌/◌, ◌%◌, ◌^◌, ◌≤◌, ◌<◌, min, max, bit_and, bit_or, bit_xor,
}
use alephos.Prelude.{
  ◌≡◌, refl, sym, ap, ap₂, ◌∙◌, subst, ◌≢◌, ◌↔◌, ◌⊎◌, inl, inr, Bool, true, false, not, ◌&&◌, ◌||◌,
}
use alephos.Prelude.{Option, none, some, List, [], ◌∷◌, ◌++◌, append-nil, append_assoc, arith}
use alephos.Prelude.{
  ltb, leb, ◌==◌, if◌then◌else◌, is_some, Bool-cases, Option-cases, if_both, ltb→lt, ltb→le, lt→ltb,
  ==→eq, ==→ne, eq→==, ne→==,
}
use alephos.Prelude.{
  length, get_elem?, get_or, set, take, drop, replicate, length-append, length-set,
  length-replicate, length-take, length-drop, take-append-drop, get_or-set_self, get_or-set_ne,
  get_or-replicate, set-get_or, set-set, take-ge, drop-ge, take-of_append, drop-of_append,
}
use alephos.Prelude.{u8, u16, u32, u64, sub32, sub64}
use alephos.Bits.{complement}

abbrev pub page_size : ℕ
page_size = 4096

abbrev pub bits_per_entry : ℕ
bits_per_entry = 64

abbrev pub max_memory_gb : ℕ
max_memory_gb = 4

pub record Pmm : Type 0 where
  pub bitmap : List ℕ
  pub bitmap_size : ℕ
  pub total_pages : ℕ
  pub free_pages : ℕ

-- `1 << (page % BITS_PER_ENTRY)`
abbrev pub mask_of : ℕ → ℕ
mask_of page = 2 ^ (page % bits_per_entry)

abbrev pub entry_of : List ℕ → ℕ → ℕ
entry_of bitmap page = get_or bitmap (page / bits_per_entry) 0

pub bitmap_set : List ℕ → ℕ → List ℕ
bitmap_set bitmap page =
    set bitmap (page / bits_per_entry) (bit_or (entry_of bitmap page) (mask_of page))

pub bitmap_clear : List ℕ → ℕ → List ℕ
bitmap_clear bitmap page =
    set bitmap (page / bits_per_entry)
      (bit_and (entry_of bitmap page) (complement 64 (mask_of page)))

pub bitmap_test : List ℕ → ℕ → Bool
bitmap_test bitmap page = not (bit_and (entry_of bitmap page) (mask_of page) == 0)

-- The inner loop of `pmm_alloc_page`: the first clear bit from `bit` on, with `n` rounds left.
pub find_bit : ℕ → ℕ → ℕ → Option ℕ
find_bit entry zero bit = none
find_bit entry (suc n) bit =
    let rest = find_bit entry n (bit + 1) in if bit_and entry (2 ^ bit) == 0 then some bit else rest

-- The outer loop from word `idx` on, with `n` rounds left: the page that it settles on.
pub find_page : List ℕ → ℕ → ℕ → Option ℕ
unfolding find_bit
find_page bitmap zero idx = none
find_page bitmap (suc n) idx =
    let rest = find_page bitmap n (idx + 1) in
    let entry = get_or bitmap idx 0 in
    if entry == 2 ^ 64 - 1
    then rest
    else elim (find_bit entry 64 0) [ some bit ↦ some (idx * bits_per_entry + bit) | none ↦ rest ]

-- What is done with that page.
pub take_page : Pmm → Option ℕ → Option ℕ × Pmm
unfolding bitmap_set
take_page s none = (none, s)
take_page s (some page) = if leb s.total_pages page then (none, s) else (
  some (u64 (page * page_size)),
  record s { bitmap = bitmap_set s.bitmap page; free_pages = sub64 s.free_pages 1 },
)

-- `none` is NULL.
unfoldable pub alloc_page : Pmm → Option ℕ × Pmm
unfolding find_page take_page
alloc_page s =
    if s.free_pages == 0 then (none, s) else take_page s (find_page s.bitmap (s.bitmap_size - 1) 1)

pub free_page : ℕ → Pmm → Pmm
unfolding bitmap_test bitmap_clear
free_page addr s =
    let page = addr / page_size in
    if leb s.total_pages page
    then s
    else (if bitmap_test s.bitmap page
        then record s { bitmap = bitmap_clear s.bitmap page; free_pages = u64 (s.free_pages + 1) }
        else s)

-- The loop of `pmm_free_pages` at index `i`, with `n` rounds left.
pub free_from : ℕ → ℕ → ℕ → Pmm → Pmm
unfolding free_page
free_from start zero i s = s
free_from start (suc n) i s =
    let page = u64 (start + i) in
    let rest = free_from start n (i + 1) (free_page (u64 (page * page_size)) s) in
    if leb s.total_pages page then s else rest

pub free_pages : ℕ → ℕ → Pmm → Pmm
unfolding free_from
free_pages addr count s =
    let start = addr / page_size in if leb s.total_pages start then s else free_from start count 0 s

pub get_free_pages : Pmm → ℕ
get_free_pages s = s.free_pages

-- `struct limine_memmap_entry`, with whether its type is LIMINE_MEMMAP_USABLE
pub record Region : Type 0 where
  pub base : ℕ
  pub len : ℕ
  pub usable : Bool

-- The first loop of `pmm_init`: the region that the bitmap goes to gives up its front.
pub claim : ℕ → List Region → Option ℕ × List Region
claim required [] = (none, [])
claim required (e ∷ es) =
    let (at, rest) = claim required es in
    if e.usable && leb required e.len
    then (some e.base, record e { base = u64 (e.base + required); len = e.len - required } ∷ es)
    else (at, e ∷ rest)

-- The loop over the pages of one region, with `n` rounds left.
pub release : ℕ → ℕ → Pmm → Pmm
unfolding bitmap_clear
release zero page s = s
release (suc n) page s =
    release n (page + 1)
      (record s { bitmap = bitmap_clear s.bitmap page; free_pages = u64 (s.free_pages + 1) })

abbrev pub start_page : Region → ℕ
start_page e = u64 (e.base + page_size - 1) / page_size

abbrev pub end_page : ℕ → Region → ℕ
end_page total e = let last = e.len / page_size in if ltb total last then total else last

-- One round of the second loop of `pmm_init`.
pub release_region : Region → Pmm → Pmm
unfolding release
release_region e s =
    if not e.usable || leb s.total_pages (start_page e)
    then s
    else release (end_page s.total_pages e - start_page e) (start_page e) s

pub release_regions : List Region → Pmm → Pmm
unfolding release_region
release_regions [] s = s
release_regions (e ∷ es) s = release_regions es (release_region e s)

abbrev pub max_pages : ℕ
max_pages = max_memory_gb * 1024 * 1024 * 1024 / page_size

abbrev pub max_entries : ℕ
max_entries = (max_pages + bits_per_entry - 1) / bits_per_entry

-- `memset(bitmap, 0xFF, n * sizeof(BITMAP_ENTRY))`
pub all_ones : ℕ → List ℕ
all_ones n = replicate n (2 ^ 64 - 1)

-- What the statics are when the bitmap has been placed: every page is marked used.
pub placed : Option ℕ → Pmm
placed at = record {
  bitmap = elim at [ none ↦ [] | some a ↦ all_ones max_entries ];
  bitmap_size = max_entries;
  total_pages = max_pages;
  free_pages = 0;
}

-- The statics after `pmm_init`.
pub init : List Region → Pmm
unfolding claim release_regions placed
init memmap =
    let (at, regions) = claim (max_entries * 8) memmap in release_regions regions (placed at)
