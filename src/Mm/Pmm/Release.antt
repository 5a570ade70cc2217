-- ===== src/Mm/Pmm/Release.antt =====
-- `pmm_free_page` and `pmm_free_pages` of kernel/src/mm/pmm.c.
use alephos.Prelude.{ℕ, zero, suc, ◌+◌, ◌*◌, ◌/◌, ◌^◌, ◌≤◌, ◌<◌}
use alephos.Prelude.{◌≡◌, refl, ap, ◌∙◌, subst, ◌≢◌, ◌⊎◌, inl, inr, false, ◌&&◌}
use alephos.Prelude.{some, arith}
use alephos.Prelude.{ltb, leb, ◌==◌, if◌then◌else◌, Bool-cases, ==→eq, ==→ne}
use alephos.Prelude.{length}
use alephos.Prelude.{u64}
use alephos.Mm.Pmm.{Pmm, bitmap_clear, bitmap_test, alloc_page, free_page, free_from, free_pages}
use alephos.Mm.Pmm.Bitmap.{test-clear, length-bitmap_clear, IsWords-bitmap_clear}
use alephos.Mm.Pmm.Count.{free_count-clear, free_count-le}
use alephos.Mm.Pmm.Alloc.{IsValid, Used, Free, Taken, Allocated, word_in, alloc_page-Allocated}

-- `page` was given back to `s`, which became `s'`.
pub record Released (s : Pmm) (page : ℕ) (s' : Pmm) : Type 0 where
  pub now_free : page < s.total_pages → Free s' page
  pub others : (q : ℕ) → q ≢ page → bitmap_test s'.bitmap q ≡ bitmap_test s.bitmap q
  pub count : s'.free_pages ≡ (
      if ltb page s.total_pages && bitmap_test s.bitmap page
      then s.free_pages + 1
      else s.free_pages)
  pub no_change : (s.total_pages ≤ page) ⊎ Free s page → s' ≡ s
  pub valid : IsValid s'
  pub same_size : (s'.total_pages ≡ s.total_pages) × (s'.bitmap_size ≡ s.bitmap_size)

pub clear-Released :
    (s : Pmm) (page : ℕ)
    → IsValid s
    → page < s.total_pages
    → Used s page
    → Released s page
        (record s { bitmap = bitmap_clear s.bitmap page; free_pages = u64 (s.free_pages + 1) })
clear-Released s page v hi used =
    let w : page / 64 < length s.bitmap = word_in page v hi in
    let small : s.free_pages ≤ s.total_pages =
      omega (arith, v.counted, free_count-le s.bitmap s.total_pages) in
    let more : u64 (s.free_pages + 1) ≡ s.free_pages + 1 = omega (arith, v.addressed) in
    record {
      now_free = λ h. ground (arith, test-clear s.bitmap page page w);
      others = λ q ne. ground (arith, test-clear s.bitmap page q w);
      count = ground arith;
      no_change = λ either. absurd (ground arith);
      valid = record {
        sized = length-bitmap_clear s.bitmap page ∙ v.sized;
        covers = v.covers;
        words = IsWords-bitmap_clear s.bitmap page v.words;
        counted =
            ground (arith, v.counted, more, free_count-clear s.bitmap page s.total_pages w used);
        addressed = v.addressed;
      };
      same_size = (refl, refl);
    }

-- pmm_free_page on a valid state frees the page of a used address and counts it, and touches no
-- other page; at a free page or past the last one it changes nothing, so that freeing twice
-- does no harm.
pub free_page-Released :
    (s : Pmm) (addr : ℕ) → IsValid s → Released s (addr / 4096) (free_page addr s)
unfolding free_page
free_page-Released s addr v = elim (Bool-cases (leb s.total_pages (addr / 4096))) [
  | inl past ↦ rw past (record {
    now_free = λ h. absurd (ground arith);
    others = λ q ne. refl;
    count = ground arith;
    no_change = λ either. refl;
    valid = v;
    same_size = (refl, refl);
  })
  | inr inside ↦ elim (Bool-cases (bitmap_test s.bitmap (addr / 4096))) [
    | inl used ↦ rw (inside, used) (clear-Released s (addr / 4096) v (ground arith) used)
    | inr free ↦
        rw (inside, free)
          (record {
            now_free = λ h. free;
            others = λ q ne. refl;
            count = ground arith;
            no_change = λ either. refl;
            valid = v;
            same_size = (refl, refl);
          })
  ]
]

Pmm_eq :
    {s t : Pmm}
    → s.bitmap ≡ t.bitmap
    → s.free_pages ≡ t.free_pages
    → (s.total_pages ≡ t.total_pages) × (s.bitmap_size ≡ t.bitmap_size)
    → s ≡ t
Pmm_eq b f z =
    λ i. record { bitmap = b i; bitmap_size = z.1 i; total_pages = z.0 i; free_pages = f i }

free_page-Taken :
    (s : Pmm) (page : ℕ) (s' : Pmm) → IsValid s → Taken s page s' → free_page (page * 4096) s' ≡ s
unfolding free_page
free_page-Taken s page s' v t =
    let small : s.free_pages ≤ s.total_pages =
      omega (arith, v.counted, free_count-le s.bitmap s.total_pages) in
    let here : page * 4096 / 4096 ≡ page = omega arith in
    let inside : leb s'.total_pages page ≡ false = ground (arith, t.in_range, t.same_size.0) in
    rw (here, inside, t.now_used)
      (Pmm_eq t.undone (omega (arith, t.one_less, v.addressed)) t.same_size)

-- Giving back the page that pmm_alloc_page returned restores the allocator, every word of the
-- bitmap and the count included.
pub free_page-alloc_page :
    (s : Pmm) {addr : ℕ} {s' : Pmm}
    → IsValid s
    → alloc_page s ≡ (some addr, s')
    → free_page addr s' ≡ s
free_page-alloc_page s {addr} {s'} v e =
    let (page, at, t) : Allocated s (some addr, s') =
      subst (Allocated s) e (alloc_page-Allocated s v) in
    rw (ap (λ a. free_page a s') at) (free_page-Taken s page s' v t)

-- `count` pages from `start` on were given back to `s`, which became `s'`.
pub record ReleasedAll (s : Pmm) (start count : ℕ) (s' : Pmm) : Type 0 where
  pub freed : (q : ℕ) → start ≤ q → q < start + count → q < s.total_pages → Free s' q
  pub others :
      (q : ℕ) → (q < start) ⊎ (start + count ≤ q) → bitmap_test s'.bitmap q ≡ bitmap_test s.bitmap q
  pub valid : IsValid s'
  pub same_total : s'.total_pages ≡ s.total_pages

ReleasedAll-none :
    (s : Pmm) (start n : ℕ) → IsValid s → s.total_pages ≤ start → ReleasedAll s start n s
ReleasedAll-none s start n v past = record {
  freed = λ q lo hi inside. absurd (omega arith);
  others = λ q out. refl;
  valid = v;
  same_total = refl;
}

-- the first page, and then the others
ReleasedAll-suc :
    (s : Pmm) (start n : ℕ) (mid s' : Pmm)
    → Released s start mid
    → ReleasedAll mid (start + 1) n s'
    → ReleasedAll s start (suc n) s'
ReleasedAll-suc s start n mid s' first rest = record {
  freed = λ q lo hi inside. elim (Bool-cases (q == start)) [
    | inl same ↦
        rest.others q (inl (omega (arith, ==→eq q start same)))
        ∙ (ap (bitmap_test mid.bitmap) (==→eq q start same)
            ∙ first.now_free (omega (arith, ==→eq q start same)))
    | inr other ↦
        rest.freed q (omega (arith, ==→ne q start other)) (omega arith)
          (omega (arith, first.same_size.0))
  ];
  others = λ q out. rest.others q (omega arith) ∙ first.others q (omega arith);
  valid = rest.valid;
  same_total = rest.same_total ∙ first.same_size.0;
}

free_from-ReleasedAll :
    (start n i : ℕ) (s : Pmm)
    → IsValid s
    → start + i + n < 2 ^ 52
    → ReleasedAll s (start + i) n (free_from start n i s)
unfolding free_from
free_from-ReleasedAll start zero i s v h = record {
  freed = λ q lo hi inside. absurd (omega arith);
  others = λ q out. refl;
  valid = v;
  same_total = refl;
}
free_from-ReleasedAll start (suc n) i s v h =
    let page : u64 (start + i) ≡ start + i = omega arith in
    let addr : u64 ((start + i) * 4096) ≡ (start + i) * 4096 = omega arith in
    let back : (start + i) * 4096 / 4096 ≡ start + i = omega arith in
    elim (Bool-cases (leb s.total_pages (start + i))) [
      | inl past ↦ rw (page, past) (ReleasedAll-none s (start + i) (suc n) v (ground arith))
      | inr inside ↦
          let mid : Pmm = free_page ((start + i) * 4096) s in
          let first : Released s (start + i) mid =
            subst (λ q. Released s q mid) back (free_page-Released s ((start + i) * 4096) v) in
          let next : start + (i + 1) ≡ start + i + 1 = omega arith in
          let rest = free_from-ReleasedAll start n (i + 1) mid first.valid (omega arith) in
          rw (page, inside, addr)
            (ReleasedAll-suc s (start + i) n mid (free_from start n (i + 1) mid) first
              (subst (λ q. ReleasedAll mid q n (free_from start n (i + 1) mid)) next rest))
    ]

-- pmm_free_pages on a valid state frees each of the count pages from the address's page on that
-- exists and touches no other page, and leaves a valid state, for a range that ends below the
-- end of the address space.
pub free_pages-ReleasedAll :
    (s : Pmm) (addr count : ℕ)
    → IsValid s
    → addr / 4096 + count < 2 ^ 52
    → ReleasedAll s (addr / 4096) count (free_pages addr count s)
unfolding free_pages
free_pages-ReleasedAll s addr count v h = elim (Bool-cases (leb s.total_pages (addr / 4096))) [
  | inl past ↦ rw past (ReleasedAll-none s (addr / 4096) count v (ground arith))
  | inr inside ↦ rw inside (
      subst (λ q. ReleasedAll s q count (free_from (addr / 4096) count 0 s)) (omega arith)
        (free_from-ReleasedAll (addr / 4096) count 0 s v (omega arith)))
]
