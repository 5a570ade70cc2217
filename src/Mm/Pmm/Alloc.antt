-- ===== src/Mm/Pmm/Alloc.antt =====
-- `pmm_alloc_page`, `pmm_free_page` and `pmm_free_pages` of kernel/src/mm/pmm.c.
use alephos.Prelude.{ℕ, ◌+◌, ◌-◌, ◌*◌, ◌/◌, ◌^◌, ◌≤◌, ◌<◌, max}
use alephos.Prelude.{◌≡◌, refl, ◌∙◌, ◌≢◌, inl, inr, true, false}
use alephos.Prelude.{Option, none, some, arith}
use alephos.Prelude.{leb, ◌==◌, Bool-cases, ==→eq}
use alephos.Prelude.{length}
use alephos.Prelude.{sub64}
use alephos.Mm.Pmm.{Pmm, bitmap_set, bitmap_clear, bitmap_test, find_page, take_page, alloc_page}
use alephos.Mm.Pmm.Bitmap.{
  test-set, length-bitmap_set, IsWords, IsWords-bitmap_set, bitmap_clear-bitmap_set,
}
use alephos.Mm.Pmm.Search.{AllUsed, FirstPage, find_page-FirstPage}
use alephos.Mm.Pmm.Count.{free_count, free_count-set, free_count-le, free_count-pos}

-- The bitmap has a bit for each page, `free_pages` is the number of clear ones, and every page's
-- address fits 64 bits.
pub record IsValid (s : Pmm) : Type 0 where
  pub sized : length s.bitmap ≡ s.bitmap_size
  pub covers : s.total_pages ≤ 64 * s.bitmap_size
  pub words : IsWords s.bitmap
  pub counted : s.free_pages ≡ free_count s.bitmap s.total_pages
  pub addressed : s.total_pages ≤ 2 ^ 52

abbrev pub Used : Pmm → ℕ → Type 0
Used s p = bitmap_test s.bitmap p ≡ true

abbrev pub Free : Pmm → ℕ → Type 0
Free s p = bitmap_test s.bitmap p ≡ false

-- `page` was handed out by a state `s` that became `s'`.
pub record Taken (s : Pmm) (page : ℕ) (s' : Pmm) : Type 0 where
  pub allowed : 64 ≤ page
  pub in_range : page < s.total_pages
  pub was_free : Free s page
  pub now_used : Used s' page
  pub others : (q : ℕ) → q ≢ page → bitmap_test s'.bitmap q ≡ bitmap_test s.bitmap q
  pub lowest : (q : ℕ) → 64 ≤ q → q < page → Used s q
  pub one_less : s'.free_pages + 1 ≡ s.free_pages
  pub valid : IsValid s'
  pub undone : bitmap_clear s'.bitmap page ≡ s.bitmap
  pub same_size : (s'.total_pages ≡ s.total_pages) × (s'.bitmap_size ≡ s.bitmap_size)

abbrev pub Allocated : Pmm → Option ℕ × Pmm → Type 0
Allocated s (none, s') = (s' ≡ s) × ((q : ℕ) → 64 ≤ q → q < s.total_pages → Used s q)
Allocated s (some addr, s') = (page : ℕ) × (addr ≡ page * 4096) × Taken s page s'

-- the word of a page below the end
pub word_in : {s : Pmm} (p : ℕ) → IsValid s → p < s.total_pages → p / 64 < length s.bitmap
word_in p v h = omega (arith, v.sized, v.covers)

take_page-Taken :
    (s : Pmm) (page : ℕ)
    → IsValid s
    → 64 ≤ page
    → page < s.total_pages
    → Free s page
    → AllUsed s.bitmap 64 page
    → Taken s page
        (record s { bitmap = bitmap_set s.bitmap page; free_pages = sub64 s.free_pages 1 })
take_page-Taken s page v lo hi free used =
    let w : page / 64 < length s.bitmap = word_in page v hi in
    let pos : 0 < s.free_pages =
      omega (arith, v.counted, free_count-pos s.bitmap page s.total_pages hi free) in
    let small : s.free_pages ≤ s.total_pages =
      omega (arith, v.counted, free_count-le s.bitmap s.total_pages) in
    let less : sub64 s.free_pages 1 + 1 ≡ s.free_pages = omega (arith, v.addressed) in
    record {
      allowed = lo;
      in_range = hi;
      was_free = free;
      now_used = ground (arith, test-set s.bitmap page page w);
      others = λ q ne. ground (arith, test-set s.bitmap page q w);
      lowest = used;
      one_less = less;
      valid = record {
        sized = length-bitmap_set s.bitmap page ∙ v.sized;
        covers = v.covers;
        words = IsWords-bitmap_set s.bitmap page v.words;
        counted =
            ground (arith, v.counted, less, free_count-set s.bitmap page s.total_pages w free);
        addressed = v.addressed;
      };
      undone = bitmap_clear-bitmap_set s.bitmap page w v.words free;
      same_size = (refl, refl);
    }

take_page-Allocated :
    (s : Pmm) (r : Option ℕ)
    → IsValid s
    → FirstPage s.bitmap 64 (max 64 (s.bitmap_size * 64)) r
    → Allocated s (take_page s r)
unfolding take_page
take_page-Allocated s none v f = (refl, λ q lo hi. f q lo (omega (arith, v.covers)))
take_page-Allocated s (some page) v f = elim (Bool-cases (leb s.total_pages page)) [
  | inl past ↦ rw past (refl, λ q lo hi. f.3 q lo (ground arith))
  | inr inside ↦
      let hi : page < s.total_pages = ground arith in
      rw inside (page, omega (arith, v.addressed), take_page-Taken s page v f.0 hi f.2 f.3)
]

none_free : (s : Pmm) → IsValid s → s.free_pages ≡ 0 → (q : ℕ) → q < s.total_pages → Used s q
none_free s v empty q h = elim (Bool-cases (bitmap_test s.bitmap q)) [
  | inl used ↦ used
  | inr free ↦ absurd (omega (arith, v.counted, free_count-pos s.bitmap q s.total_pages h free))
]

-- pmm_alloc_page on a valid state returns the address of the lowest free page from page 64 on,
-- marks that page used and no other, and counts one page less; it returns NULL, and changes
-- nothing, exactly when no page from 64 on is free.
pub alloc_page-Allocated : (s : Pmm) → IsValid s → Allocated s (alloc_page s)
unfolding alloc_page
alloc_page-Allocated s v = elim (Bool-cases (s.free_pages == 0)) [
  | inl empty ↦ rw empty (refl, λ q lo hi. none_free s v (==→eq _ _ empty) q hi)
  | inr some_left ↦ rw some_left (
      take_page-Allocated s (find_page s.bitmap (s.bitmap_size - 1) 1) v (
        find_page-FirstPage s.bitmap (s.bitmap_size - 1) 1 (max 64 (s.bitmap_size * 64))
          (omega arith)))
]
