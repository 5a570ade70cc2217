-- ===== src/Mm/Pmm/Init.antt =====
-- `pmm_init` of kernel/src/mm/pmm.c as a whole.
use alephos.Prelude.{ℕ, zero, suc, ◌+◌, ◌-◌, ◌*◌, ◌/◌, ◌%◌, ◌^◌, ◌≤◌, ◌<◌}
use alephos.Prelude.{
  ◌≡◌, refl, sym, ap, ap₂, ◌∙◌, subst, ◌⊎◌, inl, inr, Bool, true, false, not, ◌&&◌, ◌||◌,
}
use alephos.Prelude.{some, List, [], ◌∷◌, arith}
use alephos.Prelude.{leb, if◌then◌else◌, Bool-cases}
use alephos.Prelude.{length, get_or, replicate, length-replicate, get_or-replicate}
use alephos.Prelude.{u64}
use alephos.Bits.{test_bit}
use alephos.Mm.Pmm.{
  Pmm, bitmap_test, Region, claim, release_region, placed, init, all_ones, start_page, end_page,
  max_entries, max_pages,
}
use alephos.Mm.Pmm.Bitmap.{test-entry}
use alephos.Mm.Pmm.Count.{all_used-free_count}
use alephos.Mm.Pmm.Search.{ones-AllSet}
use alephos.Mm.Pmm.Alloc.{IsValid, Free}
use alephos.Mm.Pmm.Sweep.{Ascending, some_gives, gives, release_regions-Swept}

all_ones-AllUsed : (n q : ℕ) → q / 64 < n → bitmap_test (all_ones n) q ≡ true
unfolding all_ones
all_ones-AllUsed n q h =
    test-entry (replicate n (2 ^ 64 - 1)) q
    ∙ (ap (λ e. test_bit e (q % 64)) (get_or-replicate n (q / 64) (2 ^ 64 - 1) 0 h)
        ∙ ones-AllSet (q % 64) (omega arith) (omega arith))

all_ones-IsWords : (n i : ℕ) → get_or (all_ones n) i 0 < 2 ^ 64
unfolding all_ones
all_ones-IsWords zero i = omega arith
all_ones-IsWords (suc n) zero = omega arith
all_ones-IsWords (suc n) (suc i) = all_ones-IsWords n i

length-all_ones : (n : ℕ) → length (all_ones n) ≡ n
unfolding all_ones
length-all_ones n = length-replicate n (2 ^ 64 - 1)

placed-used : (a q : ℕ) → q < max_pages → bitmap_test (placed (some a)).bitmap q ≡ true
unfolding placed
placed-used a q h = all_ones-AllUsed max_entries q (omega arith)

placed-IsValid : (a : ℕ) → IsValid (placed (some a))
unfolding placed
placed-IsValid a = record {
  sized = length-all_ones max_entries;
  covers = omega arith;
  words = all_ones-IsWords max_entries;
  counted = sym (
      all_used-free_count (all_ones max_entries) max_pages
        (λ q h. all_ones-AllUsed max_entries q (omega arith)));
  addressed = omega arith;
}

-- `claim` keeps the order of the regions.
claim-Ascending :
    (required lo : ℕ) (es : List Region) → Ascending lo es → Ascending lo (claim required es).1
unfolding claim
claim-Ascending required lo [] up = tt
claim-Ascending required lo (e ∷ es) up = elim (Bool-cases (e.usable && leb required e.len)) [
  | inl here ↦
      let u : e.usable ≡ true = ground arith in
      let fits : required ≤ e.len = ground arith in
      let (above, below) : (lo ≤ e.base) × (e.base + e.len < 2 ^ 63) = up.0 u in
      let base : u64 (e.base + required) ≡ e.base + required = omega arith in
      let end : u64 (e.base + required) + (e.len - required) ≡ e.base + e.len = omega arith in
      rw (here, end) (λ u'. (omega arith, below), up.1)
  | inr elsewhere ↦
      rw elsewhere
        (up.0, claim-Ascending required (if e.usable then e.base + e.len else lo) es up.1)
]

-- Some usable region has room for the bitmap.
abbrev pub HasRoom : ℕ → List Region → Type 0
HasRoom required [] = ⊥
HasRoom required (e ∷ es) = ((e.usable ≡ true) × (required ≤ e.len)) ⊎ HasRoom required es

claim-some :
    (required : ℕ) (es : List Region)
    → HasRoom required es
    → (a : ℕ) × ((claim required es).0 ≡ some a)
unfolding claim
claim-some required [] h = absurd h
claim-some required (e ∷ es) h = elim (Bool-cases (e.usable && leb required e.len)) [
  | inl here ↦ rw here (e.base, refl)
  | inr elsewhere ↦
      rw elsewhere
        (claim-some required es (elim h [ inl (u, l) ↦ absurd (ground arith) | inr later ↦ later ]))
]

-- The page begins in a usable region and ends at the latest where a region of this length that
-- began at 0 would: pmm_init takes the region's length for its end.
abbrev pub whole_page : Region → ℕ → ℕ → Bool
whole_page e front q =
    e.usable && leb (e.base + front) (q * 4096) && leb (q * 4096 + 4096 + front) e.len

abbrev pub some_whole : List Region → ℕ → Bool
some_whole [] q = false
some_whole (e ∷ es) q = whole_page e 0 q || some_whole es q

-- The pages of a memory map, where the first usable region that has room for `required` bytes
-- holds those at its front.
abbrev pub usable_page : ℕ → List Region → ℕ → Bool
usable_page required [] q = false
usable_page required (e ∷ es) q =
    if e.usable && leb required e.len
    then whole_page e required q || some_whole es q
    else whole_page e 0 q || usable_page required es q

gives-whole :
    (e : Region) (q : ℕ)
    → (e.usable ≡ true → e.base + e.len < 2 ^ 63)
    → q < max_pages
    → gives max_pages e q ≡ whole_page e 0 q
gives-whole e q small h = elim (Bool-cases e.usable) [
  | inl u ↦ ground (arith, u, small u)
  | inr u ↦ rw u refl
]

gives-behind :
    (e : Region) (required q : ℕ)
    → e.usable ≡ true
    → required ≤ e.len
    → e.base + e.len < 2 ^ 63
    → q < max_pages
    → gives max_pages (record e { base = u64 (e.base + required); len = e.len - required }) q
      ≡ whole_page e required q
gives-behind e required q u fits small h = ground (arith, u)

some_gives-whole :
    (lo : ℕ) (es : List Region) (q : ℕ)
    → Ascending lo es
    → q < max_pages
    → some_gives max_pages es q ≡ some_whole es q
some_gives-whole lo [] q up h = refl
some_gives-whole lo (e ∷ es) q up h =
    ap₂ (λ x y. x || y) (gives-whole e q (λ u. (up.0 u).1) h)
      (some_gives-whole (if e.usable then e.base + e.len else lo) es q up.1 h)

claim-usable_page :
    (required lo : ℕ) (es : List Region) (q : ℕ)
    → Ascending lo es
    → q < max_pages
    → some_gives max_pages (claim required es).1 q ≡ usable_page required es q
unfolding claim
claim-usable_page required lo [] q up h = refl
claim-usable_page required lo (e ∷ es) q up h = elim (Bool-cases (e.usable && leb required e.len)) [
  | inl here ↦
      let u : e.usable ≡ true = ground arith in
      rw here (
        ap₂ (λ x y. x || y) (gives-behind e required q u (ground arith) (up.0 u).1 h)
          (some_gives-whole (if e.usable then e.base + e.len else lo) es q up.1 h))
  | inr elsewhere ↦ rw elsewhere (
      ap₂ (λ x y. x || y) (gives-whole e q (λ u. (up.0 u).1) h)
        (claim-usable_page required (if e.usable then e.base + e.len else lo) es q up.1 h))
]

-- After pmm_init, on a memory map in ascending order with room for the bitmap in a usable
-- region, the bitmap covers every page, the count of free pages is right, and the free pages
-- are exactly those that begin in a usable region and end no further than the region's length,
-- which the code takes for its end, where the first usable region with room for the bitmap
-- begins only behind the bitmap and is shorter by it.
pub init-Swept :
    (memmap : List Region)
    → Ascending 0 memmap
    → HasRoom (max_entries * 8) memmap
    → IsValid (init memmap)
      × ((q : ℕ)
          → q < max_pages
          → bitmap_test (init memmap).bitmap q ≡ not (usable_page (max_entries * 8) memmap q))
unfolding init
init-Swept memmap up room =
    let (a, at) = claim-some (max_entries * 8) memmap room in
    let all : (q : ℕ) → q < max_pages → bitmap_test (placed (some a)).bitmap q ≡ true =
      λ q h. placed-used a q h in
    let r =
      release_regions-Swept (claim (max_entries * 8) memmap).1 0 (placed (some a))
        (placed-IsValid a) (claim-Ascending (max_entries * 8) 0 memmap up) (λ q p h. all q h) in
    rw at (
      r.valid,
      λ q h.
          r.bits q
          ∙ ground (arith, all q h)
          ∙ ap not (claim-usable_page (max_entries * 8) 0 memmap q up h),
    )

-- A page lies whole in a usable region.
abbrev pub Inside : Region → ℕ → Type 0
Inside e q = (e.usable ≡ true) × (e.base ≤ q * 4096) × (q * 4096 + 4096 ≤ e.base + e.len)

abbrev pub SomeInside : List Region → ℕ → Type 0
SomeInside [] q = ⊥
SomeInside (e ∷ es) q = Inside e q ⊎ SomeInside es q

-- No byte of a page is one of these.
abbrev pub ApartFrom : ℕ → ℕ → ℕ → Type 0
ApartFrom at size q = (q * 4096 + 4096 ≤ at) ⊎ (at + size ≤ q * 4096)

-- The page is apart from the front of the first usable region that has room.
abbrev pub ClearOf : ℕ → List Region → ℕ → Type 0
ClearOf required [] q = Unit {0}
ClearOf required (e ∷ es) q =
    if e.usable && leb required e.len then ApartFrom e.base required q else ClearOf required es q

some_whole-SomeInside : (es : List Region) (q : ℕ) → some_whole es q ≡ true → SomeInside es q
some_whole-SomeInside [] q g = cc
some_whole-SomeInside (e ∷ es) q g = elim (Bool-cases (whole_page e 0 q)) [
  | inl here ↦ inl (ground (arith, here), ground (arith, here), ground (arith, here))
  | inr elsewhere ↦ inr (some_whole-SomeInside es q (ground (arith, elsewhere, g)))
]

-- Regions from `lo` on give no page below it.
some_whole-above :
    (lo : ℕ) (es : List Region) (q : ℕ) → Ascending lo es → some_whole es q ≡ true → lo ≤ q * 4096
some_whole-above lo [] q up g = cc
some_whole-above lo (e ∷ es) q up g = elim (Bool-cases (whole_page e 0 q)) [
  | inl here ↦ omega (arith, (up.0 (ground (arith, here))).0, below here)
  | inr elsewhere ↦
      let rest =
        some_whole-above (if e.usable then e.base + e.len else lo) es q up.1
          (ground (arith, elsewhere, g)) in
      elim (Bool-cases e.usable) [
        | inl u ↦ ground (arith, rest, u, (up.0 u).0)
        | inr u ↦ ground (arith, rest, u)
      ]
]
  where
    below : whole_page e 0 q ≡ true → e.base ≤ q * 4096
    below here = ground (arith, here)

usable_page-SomeInside :
    (required : ℕ) (es : List Region) (q : ℕ) → usable_page required es q ≡ true → SomeInside es q
usable_page-SomeInside required [] q g = cc
usable_page-SomeInside required (e ∷ es) q g = elim (Bool-cases (e.usable && leb required e.len)) [
  | inl here ↦ elim (Bool-cases (whole_page e required q)) [
    | inl first ↦ inl (ground (arith, first), ground (arith, first), ground (arith, first))
    | inr later ↦ inr (some_whole-SomeInside es q (ground (arith, g, here, later)))
  ]
  | inr elsewhere ↦ elim (Bool-cases (whole_page e 0 q)) [
    | inl first ↦ inl (ground (arith, first), ground (arith, first), ground (arith, first))
    | inr later ↦ inr (usable_page-SomeInside required es q (ground (arith, g, elsewhere, later)))
  ]
]

-- A page below the regions is apart from the front of each.
ClearOf-below :
    (required lo : ℕ) (es : List Region) (q : ℕ)
    → Ascending lo es
    → q * 4096 + 4096 ≤ lo
    → ClearOf required es q
ClearOf-below required lo [] q up h = tt
ClearOf-below required lo (e ∷ es) q up h = elim (Bool-cases (e.usable && leb required e.len)) [
  | inl here ↦
      let above : lo ≤ e.base = (up.0 (ground (arith, here))).0 in
      subst (λ b. if b then ApartFrom e.base required q else ClearOf required es q) (sym here)
        (inl (omega (arith, above)))
  | inr elsewhere ↦
      subst (λ b. if b then ApartFrom e.base required q else ClearOf required es q) (sym elsewhere)
        (ClearOf-below required (if e.usable then e.base + e.len else lo) es q up.1
          (next (Bool-cases e.usable)))
]
  where
    next :
        (e.usable ≡ true) ⊎ (e.usable ≡ false)
        → q * 4096 + 4096 ≤ (if e.usable then e.base + e.len else lo)
    next (inl u) = ground (arith, u, (up.0 u).0, h)
    next (inr u) = ground (arith, u, h)

usable_page-ClearOf :
    (required lo : ℕ) (es : List Region) (q : ℕ)
    → Ascending lo es
    → usable_page required es q ≡ true
    → ClearOf required es q
usable_page-ClearOf required lo [] q up g = tt
usable_page-ClearOf required lo (e ∷ es) q up g =
    elim (Bool-cases (e.usable && leb required e.len)) [
      | inl here ↦
          let u : e.usable ≡ true = ground (arith, here) in
          subst (λ b. if b then ApartFrom e.base required q else ClearOf required es q) (sym here)
            (elim (Bool-cases (whole_page e required q)) [
              | inl first ↦ inr (ground (arith, first))
              | inr later ↦
                  let rest =
                    some_whole-above (if e.usable then e.base + e.len else lo) es q up.1
                      (ground (arith, g, here, later)) in
                  inr (ground (arith, here, u, rest))
            ])
      | inr elsewhere ↦
          subst (λ b. if b then ApartFrom e.base required q else ClearOf required es q)
            (sym elsewhere)
            (elim (Bool-cases (whole_page e 0 q)) [
              | inl first ↦
                  ClearOf-below required (if e.usable then e.base + e.len else lo) es q up.1
                    (ground (arith, first))
              | inr later ↦
                  usable_page-ClearOf required (if e.usable then e.base + e.len else lo) es q up.1
                    (ground (arith, g, elsewhere, later))
            ])
    ]

-- Every page that pmm_init leaves free lies whole in a usable region of the memory map and has
-- no byte in common with the bitmap at the front of the first usable region with room for it,
-- on a memory map in ascending order with such a region.
pub init-SomeInside :
    (memmap : List Region) (q : ℕ)
    → Ascending 0 memmap
    → HasRoom (max_entries * 8) memmap
    → q < max_pages
    → Free (init memmap) q
    → SomeInside memmap q × ClearOf (max_entries * 8) memmap q
init-SomeInside memmap q up room h free =
    let g : usable_page (max_entries * 8) memmap q ≡ true =
      ground (arith, (init-Swept memmap up room).1 q h, free) in
    (
      usable_page-SomeInside (max_entries * 8) memmap q g,
      usable_page-ClearOf (max_entries * 8) 0 memmap q up g,
    )

-- A usable region whose length is at most its base gives no page at all: its pages are counted
-- up to the page number of its length, where the page number of its end is meant.
pub release_region-low :
    (e : Region) (s : Pmm) → e.len ≤ e.base → e.base < 2 ^ 63 → release_region e s ≡ s
unfolding release_region
release_region-low e s low small =
    elim (Bool-cases (not e.usable || leb s.total_pages (start_page e))) [
      | inl skipped ↦ rw skipped
      | inr enters ↦
          let no_rounds : end_page s.total_pages e - start_page e ≡ 0 = ground arith in
          rw (enters, no_rounds)
    ]
