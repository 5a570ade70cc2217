-- ===== src/Core/Elf/Loading/Mapped.antt =====
-- The pages that map_segments of kernel/src/core/elf.c maps for a segment: all that it fills.
use alephos.Prelude.{ℕ, zero, suc, ◌+◌, ◌-◌, ◌*◌, ◌/◌, ◌%◌, ◌≤◌, ◌<◌}
use alephos.Prelude.{
  ◌≡◌, refl, sym, ap, ap₂, ◌∙◌, subst, inl, inr, ◌⊎◌, Bool, true, false, ◌&&◌, ◌||◌,
}
use alephos.Prelude.{Option, none, some, arith}
use alephos.Prelude.{◌==◌, if◌then◌else◌, Bool-cases}
use alephos.Prelude.{u64, sub64}
use mathlib.Core.Bool.{true≢false}
use alephos.Utils.Mem.{Memory}
use alephos.Mm.Heap.{Pages}
use alephos.Core.Elf.{SegmentInfo, LoadError, load_success, segment_mapping, succeeds, page_offset}
use alephos.Core.Elf.Loading.{
  Machine, mark_mapped, all_mapped, reachable, fill_bytes, fill_segment, map_one, map_pages,
  page_count,
}
use alephos.Core.Elf.Loading.Filling.{Clear, Touched}

-- Pages that were mapped stay mapped.
abbrev Stay : (ℕ → Bool) → (ℕ → Bool) → Type 0
Stay m m' = (page : ℕ) → m page ≡ true → m' page ≡ true

all_mapped-Stay :
    (n page : ℕ) (m m' : ℕ → Bool)
    → Stay m m'
    → all_mapped n page m ≡ true
    → all_mapped n page m' ≡ true
unfolding all_mapped
all_mapped-Stay zero page m m' s h = refl
all_mapped-Stay (suc n) page m m' s h =
    ap₂ (λ x y. x && y) (s page (ground (arith, h)))
      (all_mapped-Stay n (page + 1) m m' s (ground (arith, h)))

all_mapped-fewer :
    (n k page : ℕ) (m : ℕ → Bool) → k ≤ n → all_mapped n page m ≡ true → all_mapped k page m ≡ true
unfolding all_mapped
all_mapped-fewer n zero page m le h = refl
all_mapped-fewer zero (suc k) page m le h = absurd (omega arith)
all_mapped-fewer (suc n) (suc k) page m le h =
    ap₂ (λ x y. x && y) {y = true} (ground (arith, h))
      (all_mapped-fewer n k (page + 1) m (omega arith) (ground (arith, h)))

mark_mapped-Stay : (a : ℕ) (m : ℕ → Bool) → Stay m (mark_mapped a m)
unfolding mark_mapped
mark_mapped-Stay a m page h = ground (arith, h)

mark_mapped-here : (a page : ℕ) (m : ℕ → Bool) → page ≡ a / 4096 → mark_mapped a m page ≡ true
unfolding mark_mapped
mark_mapped-here a page m e = ground (arith, e)

module _ (P : Pages) (touch : ℕ → P.State → Memory → Memory) where
  open P use {State}

  -- Mapping a page changes bytes only of that page and of the allocator and the tables.
  abbrev pub Spares : (ℕ → Bool) → Type 0
  Spares reserved =
      (page : ℕ) (s : State) (m : Memory) (a : ℕ)
      → reserved a ≡ false
      → (a < page) ⊎ (page + 4096 ≤ a)
      → touch page s m a ≡ m a

  map_one-Stay :
      (page flags : ℕ) (g : Option ℕ × State) (k : Machine State)
      → Stay k.mapped (map_one P touch page flags g k).1.mapped
  unfolding map_one
  map_one-Stay page flags (none, s) k p h = h
  map_one-Stay page flags (some phys, s) k p h =
      elim (Bool-cases (P.map_page page phys flags s).0) [
        | inl e ↦
            subst (λ b. (if b then mark_mapped page k.mapped else k.mapped) p ≡ true) (sym e)
              (mark_mapped-Stay page k.mapped p h)
        | inr e ↦
            subst (λ b. (if b then mark_mapped page k.mapped else k.mapped) p ≡ true) (sym e) h
      ]

  map_one-here :
      (page flags p : ℕ) (g : Option ℕ × State) (k : Machine State)
      → p ≡ page / 4096
      → succeeds (map_one P touch page flags g k).0 ≡ true
      → (map_one P touch page flags g k).1.mapped p ≡ true
  unfolding map_one
  map_one-here page flags p (none, s) k e h = absurd (true≢false (sym h))
  map_one-here page flags p (some phys, s) k e h =
      elim (Bool-cases (P.map_page page phys flags s).0) [
        | inl done ↦
            subst (λ b. (if b then mark_mapped page k.mapped else k.mapped) p ≡ true) (sym done)
              (mark_mapped-here page p k.mapped e)
        | inr fails ↦ absurd (
            true≢false
              (sym h ∙ ap (λ b. succeeds (if b then load_success else segment_mapping)) fails))
      ]

  map_one-bytes :
      (reserved : ℕ → Bool) (page flags : ℕ) (g : Option ℕ × State) (k : Machine State) (a : ℕ)
      → Spares reserved
      → reserved a ≡ false
      → (a < page) ⊎ (page + 4096 ≤ a)
      → (map_one P touch page flags g k).1.bytes a ≡ k.bytes a
  unfolding map_one
  map_one-bytes reserved page flags (none, s) k a v u out = refl
  map_one-bytes reserved page flags (some phys, s) k a v u out =
      v page (P.map_page page phys flags s).1 k.bytes a u out

  map_pages-Stay :
      (n page flags : ℕ) (k : Machine State)
      → Stay k.mapped (map_pages P touch n page flags k).1.mapped
  unfolding map_pages
  map_pages-Stay zero page flags k p h = h
  map_pages-Stay (suc n) page flags k p h =
      let g : LoadError × Machine State = map_one P touch page flags (P.alloc_page k.pages) k in
      let rest : LoadError × Machine State = map_pages P touch n (page + 4096) flags g.1 in
      let stays : g.1.mapped p ≡ true = map_one-Stay page flags (P.alloc_page k.pages) k p h in
      elim (Bool-cases (succeeds g.0)) [
        | inl e ↦
            subst (λ b. (if b then rest else g).1.mapped p ≡ true) (sym e)
              (map_pages-Stay n (page + 4096) flags g.1 p stays)
        | inr e ↦ subst (λ b. (if b then rest else g).1.mapped p ≡ true) (sym e) stays
      ]

  pub map_pages-mapped :
      (n page flags p : ℕ) (k : Machine State)
      → page ≡ p * 4096
      → succeeds (map_pages P touch n page flags k).0 ≡ true
      → all_mapped n p (map_pages P touch n page flags k).1.mapped ≡ true
  unfolding map_pages all_mapped
  map_pages-mapped zero page flags p k at h = refl
  map_pages-mapped (suc n) page flags p k at h =
      let g : LoadError × Machine State = map_one P touch page flags (P.alloc_page k.pages) k in
      let rest : LoadError × Machine State = map_pages P touch n (page + 4096) flags g.1 in
      elim (Bool-cases (succeeds g.0)) [
        | inl e ↦
            let ended : succeeds rest.0 ≡ true =
              subst (λ b. succeeds (if b then rest else g).0 ≡ true) e h in
            subst (λ b. all_mapped (suc n) p (if b then rest else g).1.mapped ≡ true) (sym e)
              (ap₂ (λ x y. x && y)
                (map_pages-Stay n (page + 4096) flags g.1 p
                  (map_one-here page flags p (P.alloc_page k.pages) k (omega arith) e))
                (map_pages-mapped n (page + 4096) flags (p + 1) g.1 (omega arith) ended))
        | inr e ↦
            absurd
              (true≢false (sym (subst (λ b. succeeds (if b then rest else g).0 ≡ true) e h) ∙ e))
      ]

  pub map_pages-bytes :
      (reserved : ℕ → Bool) (n page flags : ℕ) (k : Machine State) (a : ℕ)
      → Spares reserved
      → reserved a ≡ false
      → (a < page) ⊎ (page + n * 4096 ≤ a)
      → (map_pages P touch n page flags k).1.bytes a ≡ k.bytes a
  unfolding map_pages
  map_pages-bytes reserved zero page flags k a v u out = refl
  map_pages-bytes reserved (suc n) page flags k a v u out =
      let g : LoadError × Machine State = map_one P touch page flags (P.alloc_page k.pages) k in
      let rest : LoadError × Machine State = map_pages P touch n (page + 4096) flags g.1 in
      let once : g.1.bytes a ≡ k.bytes a =
        map_one-bytes reserved page flags (P.alloc_page k.pages) k a v u (ground (arith, out)) in
      elim (Bool-cases (succeeds g.0)) [
        | inl e ↦
            subst (λ b. (if b then rest else g).1.bytes a ≡ k.bytes a) (sym e)
              (map_pages-bytes reserved n (page + 4096) flags g.1 a v u (ground (arith, out))
                ∙ once)
        | inr e ↦ subst (λ b. (if b then rest else g).1.bytes a ≡ k.bytes a) (sym e) once
      ]

-- A segment whose pages are mapped is filled without a fault.
pub fill_segment-filled :
    (mapped : ℕ → Bool) (m : Memory) (elf size : ℕ) (s : SegmentInfo)
    → Clear elf size s
    → all_mapped (page_count s) (s.vaddr_start / 4096) mapped ≡ true
    → fill_segment mapped m elf s ≡ some (fill_bytes m elf s)
unfolding fill_segment reachable page_count
fill_segment-filled mapped m elf size s c all =
    let len : sub64 s.vaddr_end s.vaddr_start ≡ s.vaddr_end - s.vaddr_start =
      omega (arith, c.forward, c.below) in
    let to : u64 (s.vaddr_start + page_offset s.vaddr_start) ≡ s.vaddr_start =
      omega (arith, c.aligned, c.forward, c.below) in
    let zeroes : reachable s.vaddr_start (s.vaddr_end - s.vaddr_start) mapped ≡ true =
      within (s.vaddr_end - s.vaddr_start) (omega (arith, c.forward)) in
    let copies : reachable s.vaddr_start s.file_size mapped ≡ true =
      within s.file_size (omega (arith, c.room)) in
    ap (λ b. if b then some (fill_bytes m elf s) else none)
      (ap₂ (λ x y. x && y) (ap (λ n. reachable s.vaddr_start n mapped) len ∙ zeroes)
        (ap (λ a. reachable a s.file_size mapped) to ∙ copies))
  where
    within : (n : ℕ) → s.vaddr_start + n ≤ s.vaddr_end → reachable s.vaddr_start n mapped ≡ true
    within n fits =
        let enough : all_mapped ((s.vaddr_start % 4096 + n + 4095) / 4096) (s.vaddr_start / 4096)
              mapped
            ≡ true =
          all_mapped-fewer ((s.vaddr_end - s.vaddr_start) / 4096)
            ((s.vaddr_start % 4096 + n + 4095) / 4096) (s.vaddr_start / 4096) mapped
            (omega (arith, c.aligned, c.aligned_end)) all in
        elim (Bool-cases (n == 0)) [
          | inl e ↦
              ap
                (λ b.
                  b
                  || all_mapped ((s.vaddr_start % 4096 + n + 4095) / 4096) (s.vaddr_start / 4096)
                      mapped)
                e
          | inr e ↦ ap₂ (λ x y. x || y) e enough
        ]

-- The mapping of a segment's pages touches no other byte.
pub map_pages-Touched :
    (P : Pages) (touch : ℕ → P.State → Memory → Memory) (reserved : ℕ → Bool) (elf size : ℕ)
    (s : SegmentInfo) (flags : ℕ) (k : Machine P.State)
    → Clear elf size s
    → Spares P touch reserved
    → Touched reserved s k.bytes (map_pages P touch (page_count s) s.vaddr_start flags k).1.bytes
unfolding page_count
map_pages-Touched P touch reserved elf size s flags k c v a u out =
    map_pages-bytes P touch reserved (page_count s) s.vaddr_start flags k a v u (side out)
  where
    side :
        (a < s.vaddr_start) ⊎ (s.vaddr_end ≤ a)
        → (a < s.vaddr_start) ⊎ (s.vaddr_start + (s.vaddr_end - s.vaddr_start) / 4096 * 4096 ≤ a)
    side (inl h) = inl h
    side (inr h) = inr (omega (arith, c.forward))
