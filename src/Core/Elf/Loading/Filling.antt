-- ===== src/Core/Elf/Loading/Filling.antt =====
-- What the memory of the segments holds after the loading of kernel/src/core/elf.c.
use alephos.Prelude.{ℕ, ◌+◌, ◌-◌, ◌%◌, ◌^◌, ◌≤◌, ◌<◌}
use alephos.Prelude.{◌≡◌, refl, ap, ap₂, ◌∙◌, ◌⊎◌, inl, inr, Bool, true, false, ◌&&◌}
use alephos.Prelude.{List, [], ◌∷◌, arith}
use alephos.Prelude.{ltb, leb, if◌then◌else◌, Bool-cases, ltb→lt}
use alephos.Prelude.{u64, sub64}
use alephos.Utils.Mem.{Memory, memset, memcpy}
use alephos.Utils.Mem.Copies.{memset-range, memcpy-copied}
use alephos.Core.Elf.{SegmentInfo, page_offset}
use alephos.Core.Elf.Loading.{fill_bytes}
use alephos.Core.Elf.Overlaps.{Apart, ApartAll}

-- The segment is of whole pages, lies apart from the file of `size` bytes at `elf`, has its bytes
-- in the file, and room for them.
pub record Clear (elf size : ℕ) (s : SegmentInfo) : Type 0 where
  pub forward : s.vaddr_start ≤ s.vaddr_end
  pub below : s.vaddr_end < 2 ^ 64
  pub aligned : s.vaddr_start % 4096 ≡ 0
  pub aligned_end : s.vaddr_end % 4096 ≡ 0
  pub in_file : s.file_offset + s.file_size ≤ size
  pub file_below : elf + size < 2 ^ 64
  pub room : s.vaddr_start + s.file_size ≤ s.vaddr_end
  pub apart : (s.vaddr_end ≤ elf) ⊎ (elf + size ≤ s.vaddr_start)

abbrev pub AllClear : ℕ → ℕ → List SegmentInfo → Type 0
AllClear elf size [] = Unit {0}
AllClear elf size (s ∷ ss) = Clear elf size s × AllClear elf size ss

-- The bytes of a segment: those of the file, then zeros.
abbrev pub image : Memory → ℕ → SegmentInfo → ℕ → ℕ
image m elf s j = if ltb j s.file_size then m (elf + s.file_offset + j) else 0

abbrev pub Outside : ℕ → List SegmentInfo → Type 0
Outside a [] = Unit {0}
Outside a (s ∷ ss) = ((a < s.vaddr_start) ⊎ (s.vaddr_end ≤ a)) × Outside a ss

abbrev pub Holding : Memory → ℕ → Memory → List SegmentInfo → Type 0
Holding m elf m' [] = Unit {0}
Holding m elf m' (s ∷ ss) =
    ((j : ℕ) → s.vaddr_start + j < s.vaddr_end → m' (s.vaddr_start + j) ≡ image m elf s j)
    × Holding m elf m' ss

-- No byte of the segment belongs to the page allocator or the page tables.
abbrev pub Free : (ℕ → Bool) → SegmentInfo → Type 0
Free reserved s = (a : ℕ) → s.vaddr_start ≤ a → a < s.vaddr_end → reserved a ≡ false

abbrev pub AllFree : (ℕ → Bool) → List SegmentInfo → Type 0
AllFree reserved [] = Unit {0}
AllFree reserved (s ∷ ss) = Free reserved s × AllFree reserved ss

-- Each segment holds its bytes of the file, and no byte outside the segments has changed that
-- does not belong to the page allocator or the page tables.
pub record Loaded (reserved : ℕ → Bool) (m : Memory) (elf : ℕ) (ss : List SegmentInfo) (m' : Memory)
    : Type 0 where
  pub holding : Holding m elf m' ss
  pub kept : (a : ℕ) → reserved a ≡ false → Outside a ss → m' a ≡ m a

-- `fill_bytes`, its addresses given.
abbrev poured : Memory → SegmentInfo → ℕ → ℕ → ℕ → Memory
poured m s len to from =
    let zeroed = memset m s.vaddr_start 0 len in
    if ltb 0 s.file_size then memcpy zeroed to from s.file_size else zeroed

poured-range :
    (m : Memory) (elf size : ℕ) (s : SegmentInfo) (a : ℕ)
    → Clear elf size s
    → poured m s (s.vaddr_end - s.vaddr_start) s.vaddr_start (elf + s.file_offset) a ≡ (
        if leb s.vaddr_start a && ltb a s.vaddr_end then image m elf s (a - s.vaddr_start) else m a)
poured-range m elf size s a c =
    let len : ℕ = s.vaddr_end - s.vaddr_start in
    let z : Memory = memset m s.vaddr_start 0 len in
    let from : ℕ = elf + s.file_offset in
    let here : z a ≡ (if leb s.vaddr_start a && ltb a (s.vaddr_start + len) then 0 else m a) =
      memset-range m s.vaddr_start 0 len a in
    elim (Bool-cases (ltb 0 s.file_size)) [
      | inr no_bytes ↦ rw no_bytes (here ∙ ground (arith, no_bytes, c.forward, c.room))
      | inl bytes ↦
          let there : z (from + (a - s.vaddr_start)) ≡ (
              if leb s.vaddr_start (from + (a - s.vaddr_start))
                && ltb (from + (a - s.vaddr_start)) (s.vaddr_start + len)
              then 0
              else m (from + (a - s.vaddr_start))) =
            memset-range m s.vaddr_start 0 len (from + (a - s.vaddr_start)) in
          rw bytes (
            memcpy-copied z s.vaddr_start from s.file_size a (sides c.apart)
            ∙ ground (arith, here, there, c.apart, c.forward, c.room, c.in_file))
    ]
  where
    sides :
        (s.vaddr_end ≤ elf) ⊎ (elf + size ≤ s.vaddr_start)
        → (s.vaddr_start ≤ elf + s.file_offset)
          ⊎ (elf + s.file_offset + s.file_size ≤ s.vaddr_start)
    sides (inl h) = inl (omega (arith, c.forward))
    sides (inr h) = inr (omega (arith, c.in_file))

fill_bytes-range :
    (m : Memory) (elf size : ℕ) (s : SegmentInfo) (a : ℕ)
    → Clear elf size s
    → fill_bytes m elf s a ≡ (
        if leb s.vaddr_start a && ltb a s.vaddr_end then image m elf s (a - s.vaddr_start) else m a)
unfolding fill_bytes
fill_bytes-range m elf size s a c =
    let len : sub64 s.vaddr_end s.vaddr_start ≡ s.vaddr_end - s.vaddr_start =
      omega (arith, c.forward, c.below) in
    let to : u64 (s.vaddr_start + page_offset s.vaddr_start) ≡ s.vaddr_start =
      omega (arith, c.aligned, c.forward, c.below) in
    let from : u64 (elf + s.file_offset) ≡ elf + s.file_offset =
      omega (arith, c.in_file, c.file_below) in
    ap
      (λ x.
        poured m s x (u64 (s.vaddr_start + page_offset s.vaddr_start)) (u64 (elf + s.file_offset))
          a)
      len
    ∙ ap₂ (λ x y. poured m s (s.vaddr_end - s.vaddr_start) x y a) to from
    ∙ poured-range m elf size s a c

-- The bytes of the file are the same.
abbrev pub SameFile : ℕ → ℕ → Memory → Memory → Type 0
SameFile elf size m m' = (a : ℕ) → elf ≤ a → a < elf + size → m' a ≡ m a

image-same :
    (m m' : Memory) (elf size : ℕ) (s : SegmentInfo) (j : ℕ)
    → SameFile elf size m m'
    → s.file_offset + s.file_size ≤ size
    → image m' elf s j ≡ image m elf s j
image-same m m' elf size s j same inside = elim (Bool-cases (ltb j s.file_size)) [
  | inl e ↦
      rw e (same (elf + s.file_offset + j) (omega arith) (omega (arith, ltb→lt j s.file_size e)))
  | inr e ↦ rw e refl
]

Holding-same :
    (m m' : Memory) (elf size : ℕ) (last : Memory) (ss : List SegmentInfo)
    → SameFile elf size m m'
    → AllClear elf size ss
    → Holding m' elf last ss
    → Holding m elf last ss
Holding-same m m' elf size last [] same c h = tt
Holding-same m m' elf size last (s ∷ ss) same c h = (
  λ j inside. h.0 j inside ∙ image-same m m' elf size s j same c.0.in_file,
  Holding-same m m' elf size last ss same c.1 h.1,
)

ApartAll-Outside :
    (s : SegmentInfo) (ss : List SegmentInfo) (a : ℕ)
    → s.vaddr_start ≤ a
    → a < s.vaddr_end
    → ApartAll s ss
    → Outside a ss
ApartAll-Outside s [] a low high p = tt
ApartAll-Outside s (t ∷ ts) a low high p = (side p.0, ApartAll-Outside s ts a low high p.1)
  where
    side : Apart s t → (a < t.vaddr_start) ⊎ (t.vaddr_end ≤ a)
    side (inl h) = inr (omega arith)
    side (inr h) = inl (omega arith)

pub Loaded-cons :
    (reserved : ℕ → Bool) (m : Memory) (elf size : ℕ) (s : SegmentInfo) (ss : List SegmentInfo)
    (last : Memory)
    → Clear elf size s
    → AllClear elf size ss
    → ApartAll s ss
    → Free reserved s
    → Loaded reserved (fill_bytes m elf s) elf ss last
    → Loaded reserved m elf (s ∷ ss) last
Loaded-cons reserved m elf size s ss last c cs apart free l =
    let filled : (a : ℕ)
        → fill_bytes m elf s a ≡ (
            if leb s.vaddr_start a && ltb a s.vaddr_end
            then image m elf s (a - s.vaddr_start)
            else m a) =
      λ a. fill_bytes-range m elf size s a c in
    let same : SameFile elf size m (fill_bytes m elf s) = λ a low high.
      filled a
      ∙ ap (λ b. if b then image m elf s (a - s.vaddr_start) else m a) (off a low high c.apart) in
    record {
      holding = (
        λ j inside.
            l.kept (s.vaddr_start + j) (free (s.vaddr_start + j) (omega arith) inside)
              (ApartAll-Outside s ss (s.vaddr_start + j) (omega arith) inside apart)
            ∙ filled (s.vaddr_start + j)
            ∙ within j inside,
        Holding-same m (fill_bytes m elf s) elf size last ss same cs l.holding,
      );
      kept = λ a unreserved out.
          l.kept a unreserved out.1
          ∙ filled a
          ∙ ap (λ b. if b then image m elf s (a - s.vaddr_start) else m a) (beyond a out.0);
    }
  where
    off :
        (a : ℕ)
        → elf ≤ a
        → a < elf + size
        → (s.vaddr_end ≤ elf) ⊎ (elf + size ≤ s.vaddr_start)
        → (leb s.vaddr_start a && ltb a s.vaddr_end) ≡ false
    off a low high (inl h) = ground arith
    off a low high (inr h) = ground arith

    within :
        (j : ℕ)
        → s.vaddr_start + j < s.vaddr_end
        → (if leb s.vaddr_start (s.vaddr_start + j) && ltb (s.vaddr_start + j) s.vaddr_end
            then image m elf s (s.vaddr_start + j - s.vaddr_start)
            else m (s.vaddr_start + j))
          ≡ image m elf s j
    within j inside =
        ap₂ (λ b i. if b then image m elf s i else m (s.vaddr_start + j)) {y = true} {v = j}
          (ground arith) (omega arith)

    beyond :
        (a : ℕ)
        → (a < s.vaddr_start) ⊎ (s.vaddr_end ≤ a)
        → (leb s.vaddr_start a && ltb a s.vaddr_end) ≡ false
    beyond a (inl h) = ground arith
    beyond a (inr h) = ground arith

-- No byte of the file belongs to the page allocator or the page tables.
abbrev pub FreeFile : (ℕ → Bool) → ℕ → ℕ → Type 0
FreeFile reserved elf size = (a : ℕ) → elf ≤ a → a < elf + size → reserved a ≡ false

-- Only bytes of the segment and of the page allocator or the page tables differ.
abbrev pub Touched : (ℕ → Bool) → SegmentInfo → Memory → Memory → Type 0
Touched reserved s m m' =
    (a : ℕ) → reserved a ≡ false → (a < s.vaddr_start) ⊎ (s.vaddr_end ≤ a) → m' a ≡ m a

pub Touched-Loaded :
    (reserved : ℕ → Bool) (m m' : Memory) (elf size : ℕ) (s : SegmentInfo) (ss : List SegmentInfo)
    (last : Memory)
    → AllClear elf size (s ∷ ss)
    → FreeFile reserved elf size
    → Touched reserved s m m'
    → Loaded reserved m' elf (s ∷ ss) last
    → Loaded reserved m elf (s ∷ ss) last
Touched-Loaded reserved m m' elf size s ss last c free touched l = record {
  holding =
      Holding-same m m' elf size last (s ∷ ss)
        (λ a low high. touched a (free a low high) (side a low high c.0.apart)) c l.holding;
  kept = λ a unreserved out. l.kept a unreserved out ∙ touched a unreserved out.0;
}
  where
    side :
        (a : ℕ)
        → elf ≤ a
        → a < elf + size
        → (s.vaddr_end ≤ elf) ⊎ (elf + size ≤ s.vaddr_start)
        → (a < s.vaddr_start) ⊎ (s.vaddr_end ≤ a)
    side a low high (inl h) = inr (omega arith)
    side a low high (inr h) = inl (omega arith)
