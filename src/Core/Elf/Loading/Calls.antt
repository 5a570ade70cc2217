-- ===== src/Core/Elf/Loading/Calls.antt =====
-- elf_load_executable of kernel/src/core/elf.c: what a load ends with.
use alephos.Prelude.{ℕ, zero, suc, ◌+◌, ◌/◌}
use alephos.Prelude.{◌≡◌, refl, sym, ap, ◌∙◌, subst, inl, inr, Bool, true, false, arith}
use alephos.Prelude.{Option, none, some, List, [], ◌∷◌}
use alephos.Prelude.{if◌then◌else◌, is_some, Bool-cases, if_both}
use alephos.Prelude.{◌>>=◌}
use mathlib.Core.Bool.{true≢false}
use alephos.Utils.Mem.{Memory}
use alephos.Mm.Heap.{Pages}
use alephos.Core.Elf.{
  SegmentInfo, LoadError, load_success, invalid_magic, unsupported_class, unsupported_machine,
  invalid_file_type, segment_overlap, data_truncated, memory_allocation, segment_mapping, succeeds,
}
use alephos.Core.Elf.Loading.{
  Machine, fill_bytes, fill_segment, map_one, map_pages, map_segments, page_count,
  segment_page_flags,
}
use alephos.Core.Elf.Overlaps.{AllApart}
use alephos.Core.Elf.Loading.Filling.{
  AllClear, AllFree, FreeFile, Loaded, Loaded-cons, Touched-Loaded,
}
use alephos.Core.Elf.Loading.Mapped.{
  Spares, map_pages-mapped, map_pages-Touched, fill_segment-filled,
}

-- How the mapping of pages ends.
abbrev Mapping : LoadError → Type 0
Mapping load_success = Unit {0}
Mapping memory_allocation = Unit {0}
Mapping segment_mapping = Unit {0}
Mapping _ = ⊥

-- Pages are always given and can always be mapped.
abbrev pub Serves : Pages → Type 0
Serves P =
    ((s : P.State) → is_some (P.alloc_page s).0 ≡ true)
    × ((v p f : ℕ) (s : P.State) → (P.map_page v p f s).0 ≡ true)

module _ (P : Pages) (touch : ℕ → P.State → Memory → Memory) where
  open P use {State}

  map_one-Mapping :
      (page flags : ℕ) (g : Option ℕ × State) (k : Machine State)
      → Mapping (map_one P touch page flags g k).0
  unfolding map_one
  map_one-Mapping page flags (none, s) k = tt
  map_one-Mapping page flags (some phys, s) k =
      if_both Mapping (P.map_page page phys flags s).0 {x = load_success} {y = segment_mapping} tt
        tt

  map_one-success :
      (page flags : ℕ) (g : Option ℕ × State) (k : Machine State)
      → Serves P
      → is_some g.0 ≡ true
      → (map_one P touch page flags g k).0 ≡ load_success
  unfolding map_one
  map_one-success page flags (none, s) k v e = absurd (true≢false (sym e))
  map_one-success page flags (some phys, s) k v e =
      ap (λ b. if b then load_success else segment_mapping) (v.1 page phys flags s)

  map_pages-Mapping :
      (n page flags : ℕ) (k : Machine State) → Mapping (map_pages P touch n page flags k).0
  unfolding map_pages
  map_pages-Mapping zero page flags k = tt
  map_pages-Mapping (suc n) page flags k =
      let g : LoadError × Machine State = map_one P touch page flags (P.alloc_page k.pages) k in
      if_both (λ r. Mapping r.0) (succeeds g.0) {x = map_pages P touch n (page + 4096) flags g.1}
        {y = g} (map_pages-Mapping n (page + 4096) flags g.1)
        (map_one-Mapping page flags (P.alloc_page k.pages) k)

  map_pages-success :
      (n page flags : ℕ) (k : Machine State)
      → Serves P
      → (map_pages P touch n page flags k).0 ≡ load_success
  unfolding map_pages
  map_pages-success zero page flags k v = refl
  map_pages-success (suc n) page flags k v =
      let g : LoadError × Machine State = map_one P touch page flags (P.alloc_page k.pages) k in
      let rest : LoadError × Machine State = map_pages P touch n (page + 4096) flags g.1 in
      let ok : g.0 ≡ load_success =
        map_one-success page flags (P.alloc_page k.pages) k v (v.0 k.pages) in
      ap (λ e. (if succeeds e then rest else g).0) ok
      ∙ map_pages-success n (page + 4096) flags g.1 v

  -- The load succeeds, if it does not fault.
  abbrev pub Succeeds : Option (LoadError × Machine State) → Type 0
  Succeeds none = Unit {0}
  Succeeds (some r) = r.0 ≡ load_success

  module _ (reserved : ℕ → Bool) where
    -- How the loading of these segments ends: they are loaded, or a page was missing. It does
    -- not fault.
    abbrev pub Loads : ℕ → Memory → List SegmentInfo → Option (LoadError × Machine State) → Type 0
    Loads elf m ss none = ⊥
    Loads elf m ss (some (load_success, k)) = Loaded reserved m elf ss k.bytes
    Loads elf m ss (some (memory_allocation, k)) = Unit {0}
    Loads elf m ss (some (segment_mapping, k)) = Unit {0}
    Loads elf m ss (some (_, k)) = ⊥

    Loads-fail :
        (elf : ℕ) (m : Memory) (ss : List SegmentInfo) (e : LoadError) (k : Machine State)
        → Mapping e
        → succeeds e ≡ false
        → Loads elf m ss (some (e, k))
    Loads-fail elf m ss load_success k g f = absurd (true≢false f)
    Loads-fail elf m ss memory_allocation k g f = tt
    Loads-fail elf m ss segment_mapping k g f = tt
    Loads-fail elf m ss invalid_magic k g f = g
    Loads-fail elf m ss unsupported_class k g f = g
    Loads-fail elf m ss unsupported_machine k g f = g
    Loads-fail elf m ss invalid_file_type k g f = g
    Loads-fail elf m ss segment_overlap k g f = g
    Loads-fail elf m ss data_truncated k g f = g

    Loads-map :
        (elf : ℕ) (m m' : Memory) (ss ss' : List SegmentInfo)
        (r : Option (LoadError × Machine State))
        → ((last : Memory) → Loaded reserved m elf ss last → Loaded reserved m' elf ss' last)
        → Loads elf m ss r
        → Loads elf m' ss' r
    Loads-map elf m m' ss ss' none f l = l
    Loads-map elf m m' ss ss' (some (load_success, k)) f l = f k.bytes l
    Loads-map elf m m' ss ss' (some (memory_allocation, k)) f l = tt
    Loads-map elf m m' ss ss' (some (segment_mapping, k)) f l = tt
    Loads-map elf m m' ss ss' (some (invalid_magic, k)) f l = l
    Loads-map elf m m' ss ss' (some (unsupported_class, k)) f l = l
    Loads-map elf m m' ss ss' (some (unsupported_machine, k)) f l = l
    Loads-map elf m m' ss ss' (some (invalid_file_type, k)) f l = l
    Loads-map elf m m' ss ss' (some (segment_overlap, k)) f l = l
    Loads-map elf m m' ss ss' (some (data_truncated, k)) f l = l

    pub map_segments-Loads :
        (elf size : ℕ) (ss : List SegmentInfo) (k : Machine State)
        → Spares P touch reserved
        → FreeFile reserved elf size
        → AllClear elf size ss
        → AllFree reserved ss
        → AllApart ss
        → Loads elf k.bytes ss (map_segments P touch elf ss k)
    unfolding map_segments
    map_segments-Loads elf size [] k v ff c f a = record { holding = tt; kept = λ b u out. refl }
    map_segments-Loads elf size (s ∷ ss) k v ff c f a =
        let flags : ℕ = segment_page_flags s.flags in
        let g : LoadError × Machine State =
          map_pages P touch (page_count s) s.vaddr_start flags k in
        let filled : Memory = fill_bytes g.1.bytes elf s in
        let next : Memory → Option (LoadError × Machine State) =
          λ m. map_segments P touch elf ss (record g.1 { bytes = m }) in
        let rest : Option (LoadError × Machine State) =
          fill_segment g.1.mapped g.1.bytes elf s >>= next in
        elim (Bool-cases (succeeds g.0)) [
          | inl e ↦
              subst (λ b. Loads elf k.bytes (s ∷ ss) (if b then rest else some g)) (sym e)
                (subst (λ o. Loads elf k.bytes (s ∷ ss) (o >>= next))
                  (sym (
                    fill_segment-filled g.1.mapped g.1.bytes elf size s c.0 (
                      map_pages-mapped P touch (page_count s) s.vaddr_start flags
                        (s.vaddr_start / 4096) k (omega (arith, c.0.aligned)) e)))
                  (Loads-map elf filled k.bytes ss (s ∷ ss) (next filled)
                    (λ last l.
                      Touched-Loaded reserved k.bytes g.1.bytes elf size s ss last c ff
                        (map_pages-Touched P touch reserved elf size s flags k c.0 v)
                        (Loaded-cons reserved g.1.bytes elf size s ss last c.0 c.1 a.0 f.0 l))
                    (map_segments-Loads elf size ss (record g.1 { bytes = filled }) v ff c.1 f.1
                      a.1)))
          | inr e ↦
              subst (λ b. Loads elf k.bytes (s ∷ ss) (if b then rest else some g)) (sym e)
                (Loads-fail elf k.bytes (s ∷ ss) g.0 g.1
                  (map_pages-Mapping (page_count s) s.vaddr_start flags k) e)
        ]

  pub map_segments-success :
      (elf : ℕ) (ss : List SegmentInfo) (k : Machine State)
      → Serves P
      → Succeeds (map_segments P touch elf ss k)
  unfolding map_segments
  map_segments-success elf [] k v = refl
  map_segments-success elf (s ∷ ss) k v =
      let g : LoadError × Machine State =
        map_pages P touch (page_count s) s.vaddr_start (segment_page_flags s.flags) k in
      let next : Memory → Option (LoadError × Machine State) =
        λ m. map_segments P touch elf ss (record g.1 { bytes = m }) in
      let rest : Option (LoadError × Machine State) =
        fill_segment g.1.mapped g.1.bytes elf s >>= next in
      subst (λ b. Succeeds (if succeeds b then rest else some g))
        (sym (map_pages-success (page_count s) s.vaddr_start (segment_page_flags s.flags) k v))
        (bound (fill_segment g.1.mapped g.1.bytes elf s) next
          (λ m. map_segments-success elf ss (record g.1 { bytes = m }) v))
    where
      bound :
          (o : Option Memory) (next : Memory → Option (LoadError × Machine State))
          → ((m : Memory) → Succeeds (next m))
          → Succeeds (o >>= next)
      bound none next h = tt
      bound (some m) next h = h m
