-- ===== src/Mm/Pmm/Tests.antt =====
-- A small page allocator and a small memory map for the tests, and the theorems at them.
use alephos.Prelude.{ℕ, zero, suc, ◌-◌, ◌*◌, ◌/◌, ◌^◌, ◌≤◌, ◌<◌}
use alephos.Prelude.{◌≡◌, refl, inl, true, false, not}
use alephos.Prelude.{some, List, [], ◌∷◌, arith}
use alephos.Prelude.{get_or}
use alephos.Mm.Pmm.{
  Pmm, Region, alloc_page, free_page, free_pages, init, bitmap_test, release_region, claim,
  max_entries, max_pages,
}
use alephos.Mm.Pmm.Count.{free_count}
use alephos.Mm.Pmm.Alloc.{IsValid, Free, Allocated, alloc_page-Allocated}
use alephos.Mm.Pmm.Release.{
  Released, ReleasedAll, free_page-Released, free_page-alloc_page, free_pages-ReleasedAll,
}
use alephos.Mm.Pmm.Ownership.{
  Ledger, Steps, here, next, allocates, mark, IsSound, alloc_page-unheld,
}
use alephos.Mm.Pmm.Sweep.{Ascending}
use alephos.Mm.Pmm.Init.{
  HasRoom, SomeInside, ClearOf, usable_page, init-Swept, init-SomeInside, release_region-low,
}

-- 128 pages: the first 64 and page 64 are used
abbrev pub small : Pmm
small = record {
  bitmap = (2 ^ 64 - 1) ∷ 1 ∷ [];
  bitmap_size = 2;
  total_pages = 128;
  free_pages = 63;
}

small-words : (i : ℕ) → get_or small.bitmap i 0 < 2 ^ 64
small-words zero = omega arith
small-words (suc zero) = omega arith
small-words (suc (suc i)) = omega arith

pub small-IsValid : IsValid small
unfolding free_count bitmap_test
small-IsValid = record {
  sized = refl;
  covers = omega arith;
  words = small-words;
  counted = refl;
  addressed = omega arith;
}

pub small-used : bitmap_test small.bitmap 64 ≡ true
unfolding bitmap_test
small-used = refl

abbrev after_alloc : Pmm
after_alloc = record small { bitmap = (2 ^ 64 - 1) ∷ 3 ∷ []; free_pages = 62 }

alloc_runs : alloc_page small ≡ (some (65 * 4096), after_alloc)
unfolding alloc_page
alloc_runs = refl

double_free_runs : free_page (65 * 4096) (free_page (65 * 4096) after_alloc) ≡ small
unfolding free_page
double_free_runs = refl

alloc_page-Allocated_example : Allocated small (alloc_page small)
alloc_page-Allocated_example = alloc_page-Allocated small small-IsValid

free_page-Released_example : Released small (262144 / 4096) (free_page 262144 small)
free_page-Released_example = free_page-Released small 262144 small-IsValid

free_page_test : free_page (65 * 4096) after_alloc ≡ small
free_page_test = free_page-alloc_page small small-IsValid alloc_runs

free_pages_test : ReleasedAll small (262144 / 4096) 2 (free_pages 262144 2 small)
free_pages_test = free_pages-ReleasedAll small 262144 2 small-IsValid (omega arith)

abbrev empty_ledger : Ledger
empty_ledger = record { pmm = small; held = λ q. false }

abbrev second : Ledger
second = record { pmm = after_alloc; held = mark (λ q. false) (65 * 4096 / 4096) true }

abbrev after_second : Pmm
after_second = record small { bitmap = (2 ^ 64 - 1) ∷ 7 ∷ []; free_pages = 61 }

ledger_runs : Steps empty_ledger second
ledger_runs = next here (allocates alloc_runs)

second_runs : alloc_page after_alloc ≡ (some (66 * 4096), after_second)
unfolding alloc_page
second_runs = refl

empty_ledger-IsSound : IsSound empty_ledger
empty_ledger-IsSound = record { valid = small-IsValid; marked = λ q h. cc }

alloc_page-unheld_example :
    (second.held (66 * 4096 / 4096) ≡ false) × (66 * 4096 / 4096 < 128) × (64 ≤ 66 * 4096 / 4096)
alloc_page-unheld_example = alloc_page-unheld ledger_runs empty_ledger-IsSound second_runs

-- one megabyte of usable memory from 1 MB on, and then a reserved region
abbrev map_of_two : List Region
map_of_two =
    record { base = 0x1000; len = 0x9f000; usable = true }
    ∷ record { base = 0xa0000; len = 0x60000; usable = false }
    ∷ record { base = 0x100000; len = 0x7ee0000; usable = true }
    ∷ []

map-Ascending : Ascending 0 map_of_two
map-Ascending = omega arith

map-HasRoom : HasRoom (max_entries * 8) map_of_two
map-HasRoom = inl (refl, omega arith)

init-Swept_example :
    IsValid (init map_of_two)
    × ((q : ℕ)
        → q < max_pages
        → bitmap_test (init map_of_two).bitmap q ≡ not (usable_page (max_entries * 8) map_of_two q))
init-Swept_example = init-Swept map_of_two map-Ascending map-HasRoom

page_50 : Free (init map_of_two) 50
unfolding claim
page_50 = (init-Swept map_of_two map-Ascending map-HasRoom).1 50 (omega arith)

init-SomeInside_example : SomeInside map_of_two 50 × ClearOf (max_entries * 8) map_of_two 50
init-SomeInside_example =
    init-SomeInside map_of_two 50 map-Ascending map-HasRoom (omega arith) page_50

release_region-low_example :
    release_region (record { base = 0x100000; len = 0x80000; usable = true }) small ≡ small
release_region-low_example =
    release_region-low (record { base = 0x100000; len = 0x80000; usable = true }) small
      (omega arith) (omega arith)
