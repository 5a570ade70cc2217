-- ===== src/Mm/Pmm/Sweep.antt =====
-- The second loop of `pmm_init` (kernel/src/mm/pmm.c): which pages it marks free, and that it
-- counts each once.
use alephos.Prelude.{ℕ, zero, suc, ◌+◌, ◌-◌, ◌/◌, ◌^◌, ◌≤◌, ◌<◌}
use alephos.Prelude.{◌≡◌, refl, ap, ◌∙◌, inl, inr, Bool, true, false, not, ◌&&◌, ◌||◌}
use alephos.Prelude.{List, [], ◌∷◌, arith}
use alephos.Prelude.{ltb, leb, ◌==◌, if◌then◌else◌, Bool-cases}
use alephos.Prelude.{u64}
use alephos.Mm.Pmm.{
  Pmm, bitmap_test, bitmap_clear, Region, release, release_region, release_regions, start_page,
  end_page,
}
use alephos.Mm.Pmm.Alloc.{IsValid}
use alephos.Mm.Pmm.Release.{Released, clear-Released}
use alephos.Mm.Pmm.Search.{AllUsed}

-- Exactly the pages that `gone` names turned from used to free.
pub record Swept (gone : ℕ → Bool) (s s' : Pmm) : Type 0 where
  pub valid : IsValid s'
  pub bits : (q : ℕ) → bitmap_test s'.bitmap q ≡ (bitmap_test s.bitmap q && not (gone q))
  pub same_total : s'.total_pages ≡ s.total_pages

abbrev pub between : ℕ → ℕ → ℕ → Bool
between lo hi q = leb lo q && ltb q hi

release-Swept :
    (n lo hi : ℕ) (s : Pmm)
    → lo + n ≡ hi
    → IsValid s
    → hi ≤ s.total_pages
    → AllUsed s.bitmap lo hi
    → Swept (between lo hi) s (release n lo s)
unfolding release
release-Swept zero lo hi s at v h used = record {
  valid = v;
  bits = λ q. ground arith;
  same_total = refl;
}
release-Swept (suc n) lo hi s at v h used =
    let mid : Pmm = record s {
      bitmap = bitmap_clear s.bitmap lo;
      free_pages = u64 (s.free_pages + 1);
    } in
    let first : Released s lo mid =
      clear-Released s lo v (omega arith) (used lo (omega arith) (omega arith)) in
    let rest =
      release-Swept n (lo + 1) hi mid (omega arith) first.valid h
        (λ q p k. first.others q (omega arith) ∙ used q (omega arith) k) in
    record {
      valid = rest.valid;
      bits = λ q. elim (Bool-cases (q == lo)) [
        | inl same ↦ ground (arith, rest.bits q, first.now_free (omega arith))
        | inr other ↦ rest.bits q ∙ ground (arith, first.others q)
      ];
      same_total = rest.same_total;
    }

-- The pages that a region gives, by the bounds that the loop computes.
abbrev pub gives : ℕ → Region → ℕ → Bool
gives total e q = e.usable && between (start_page e) (end_page total e) q

abbrev pub some_gives : ℕ → List Region → ℕ → Bool
some_gives total [] q = false
some_gives total (e ∷ es) q = gives total e q || some_gives total es q

release_region-Swept :
    (e : Region) (s : Pmm)
    → IsValid s
    → (e.usable ≡ true → AllUsed s.bitmap (start_page e) s.total_pages)
    → Swept (gives s.total_pages e) s (release_region e s)
unfolding release_region
release_region-Swept e s v used =
    elim (Bool-cases (not e.usable || leb s.total_pages (start_page e))) [
      | inl skipped ↦ rw skipped (record { valid = v; bits = λ q. ground arith; same_total = refl })
      | inr enters ↦
          let start : ℕ = start_page e in
          let end : ℕ = end_page s.total_pages e in
          let pages : AllUsed s.bitmap start s.total_pages = used (ground arith) in
          let r =
            release-Swept (end - start) start (start + (end - start)) s refl v (ground arith)
              (λ q p k. pages q p (ground arith)) in
          rw enters (record {
            valid = r.valid;
            bits = λ q. r.bits q ∙ ground arith;
            same_total = r.same_total;
          })
    ]

-- As the boot loader gives them: usable regions come in ascending order and do not overlap, from
-- `lo` on, and end well below the end of the address space.
abbrev pub Ascending : ℕ → List Region → Type 0
Ascending lo [] = Unit {0}
Ascending lo (e ∷ es) =
    (e.usable ≡ true → (lo ≤ e.base) × (e.base + e.len < 2 ^ 63))
    × Ascending (if e.usable then e.base + e.len else lo) es

pub release_regions-Swept :
    (es : List Region) (lo : ℕ) (s : Pmm)
    → IsValid s
    → Ascending lo es
    → AllUsed s.bitmap (lo / 4096) s.total_pages
    → Swept (some_gives s.total_pages es) s (release_regions es s)
unfolding release_regions
release_regions-Swept [] lo s v up used = record {
  valid = v;
  bits = λ q. ground arith;
  same_total = refl;
}
release_regions-Swept (e ∷ es) lo s v up used =
    let first = release_region-Swept e s v (λ u q p k. used q (omega (arith, up.0 u)) k) in
    let rest =
      release_regions-Swept es (if e.usable then e.base + e.len else lo) (release_region e s)
        first.valid up.1 (λ q p k. first.bits q ∙ ground (arith, used q, first.same_total, up.0)) in
    record {
      valid = rest.valid;
      bits = λ q.
          rest.bits q ∙ ground (arith, first.bits q, ap (λ t. some_gives t es q) first.same_total);
      same_total = rest.same_total ∙ first.same_total;
    }
