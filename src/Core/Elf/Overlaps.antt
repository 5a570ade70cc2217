-- ===== src/Core/Elf/Overlaps.antt =====
-- The test of kernel/src/core/elf.c for segments that overlap: what it tells apart.
use alephos.Prelude.{ℕ, ◌≤◌, ◌<◌}
use alephos.Prelude.{◌≡◌, refl, sym, ◌⊎◌, inl, inr, Bool, true, false, ◌||◌}
use alephos.Prelude.{List, [], ◌∷◌, arith}
use alephos.Prelude.{leb, Bool-cases}
use mathlib.Core.Bool.{true≢false}
use alephos.Core.Elf.{SegmentInfo, overlaps, overlaps_any, any_overlap}

-- One of the two segments ends no later than the other starts.
abbrev pub Apart : SegmentInfo → SegmentInfo → Type 0
Apart s t = (t.vaddr_end ≤ s.vaddr_start) ⊎ (s.vaddr_end ≤ t.vaddr_start)

abbrev pub ApartAll : SegmentInfo → List SegmentInfo → Type 0
ApartAll s [] = Unit {0}
ApartAll s (t ∷ ts) = Apart s t × ApartAll s ts

abbrev pub AllApart : List SegmentInfo → Type 0
AllApart [] = Unit {0}
AllApart (s ∷ ss) = ApartAll s ss × AllApart ss

abbrev Within : ℕ → SegmentInfo → Type 0
Within a s = (s.vaddr_start ≤ a) × (a < s.vaddr_end)

-- No address is in both segments.
abbrev Disjoint : SegmentInfo → SegmentInfo → Type 0
Disjoint s t = (a : ℕ) → Within a s → ¬ Within a t

abbrev DisjointAll : SegmentInfo → List SegmentInfo → Type 0
DisjointAll s [] = Unit {0}
DisjointAll s (t ∷ ts) = Disjoint s t × DisjointAll s ts

abbrev pub AllDisjoint : List SegmentInfo → Type 0
AllDisjoint [] = Unit {0}
AllDisjoint (s ∷ ss) = DisjointAll s ss × AllDisjoint ss

abbrev IsEmpty : SegmentInfo → Type 0
IsEmpty s = s.vaddr_end ≤ s.vaddr_start

-- An address is in both segments, or one of them is empty and each starts before the other ends.
abbrev Conflict : SegmentInfo → SegmentInfo → Type 0
Conflict s t =
    ((a : ℕ) × Within a s × Within a t)
    ⊎ ((IsEmpty s ⊎ IsEmpty t) × (s.vaddr_start < t.vaddr_end) × (t.vaddr_start < s.vaddr_end))

abbrev ConflictAny : SegmentInfo → List SegmentInfo → Type 0
ConflictAny s [] = ⊥
ConflictAny s (t ∷ ts) = Conflict s t ⊎ ConflictAny s ts

-- Some two segments of the list conflict.
abbrev pub AnyConflict : List SegmentInfo → Type 0
AnyConflict [] = ⊥
AnyConflict (s ∷ ss) = ConflictAny s ss ⊎ AnyConflict ss

overlaps-Apart : (s t : SegmentInfo) → overlaps s t ≡ false → Apart s t
unfolding overlaps
overlaps-Apart s t e = elim (Bool-cases (leb t.vaddr_end s.vaddr_start)) [
  | inl a ↦ inl (ltb→le' a)
  | inr b ↦ inr (ground (arith, e, b))
]
  where
    ltb→le' : leb t.vaddr_end s.vaddr_start ≡ true → t.vaddr_end ≤ s.vaddr_start
    ltb→le' a = ground (arith, a)

or-false : (a b : Bool) → (a || b) ≡ false → (a ≡ false) × (b ≡ false)
or-false true b e = absurd (true≢false e)
or-false false b e = (refl, e)

overlaps_any-ApartAll :
    (s : SegmentInfo) (ts : List SegmentInfo) → overlaps_any s ts ≡ false → ApartAll s ts
unfolding overlaps_any
overlaps_any-ApartAll s [] e = tt
overlaps_any-ApartAll s (t ∷ ts) e =
    let (a, b) = or-false (overlaps s t) (overlaps_any s ts) e in
    (overlaps-Apart s t a, overlaps_any-ApartAll s ts b)

pub any_overlap-AllApart : (ss : List SegmentInfo) → any_overlap ss ≡ false → AllApart ss
unfolding any_overlap
any_overlap-AllApart [] e = tt
any_overlap-AllApart (s ∷ ss) e =
    let (a, b) = or-false (overlaps_any s ss) (any_overlap ss) e in
    (overlaps_any-ApartAll s ss a, any_overlap-AllApart ss b)

overlaps-Conflict : (s t : SegmentInfo) → overlaps s t ≡ true → Conflict s t
unfolding overlaps
overlaps-Conflict s t e =
    let before : s.vaddr_start < t.vaddr_end = ground (arith, e) in
    let after : t.vaddr_start < s.vaddr_end = ground (arith, e) in
    elim (Bool-cases (leb s.vaddr_end s.vaddr_start)) [
      | inl none_s ↦ inr (inl (ground (arith, none_s)), before, after)
      | inr some_s ↦ elim (Bool-cases (leb t.vaddr_end t.vaddr_start)) [
        | inl none_t ↦ inr (inr (ground (arith, none_t)), before, after)
        | inr some_t ↦ elim (Bool-cases (leb s.vaddr_start t.vaddr_start)) [
          | inl first ↦
              inl (
                t.vaddr_start,
                (ground (arith, first), after),
                (omega arith, ground (arith, some_t)),
              )
          | inr second ↦ inl (
            s.vaddr_start,
            (omega arith, ground (arith, some_s)),
            (ground (arith, second), before),
          )
        ]
      ]
    ]

or-true : (a b : Bool) → (a || b) ≡ true → (a ≡ true) ⊎ (b ≡ true)
or-true true b e = inl refl
or-true false b e = inr e

overlaps_any-ConflictAny :
    (s : SegmentInfo) (ts : List SegmentInfo) → overlaps_any s ts ≡ true → ConflictAny s ts
unfolding overlaps_any
overlaps_any-ConflictAny s [] e = absurd (true≢false (sym e))
overlaps_any-ConflictAny s (t ∷ ts) e = elim (or-true (overlaps s t) (overlaps_any s ts) e) [
  | inl here ↦ inl (overlaps-Conflict s t here)
  | inr later ↦ inr (overlaps_any-ConflictAny s ts later)
]

pub any_overlap-AnyConflict : (ss : List SegmentInfo) → any_overlap ss ≡ true → AnyConflict ss
unfolding any_overlap
any_overlap-AnyConflict [] e = absurd (true≢false (sym e))
any_overlap-AnyConflict (s ∷ ss) e = elim (or-true (overlaps_any s ss) (any_overlap ss) e) [
  | inl here ↦ inl (overlaps_any-ConflictAny s ss here)
  | inr later ↦ inr (any_overlap-AnyConflict ss later)
]

Apart-Disjoint : (s t : SegmentInfo) → Apart s t → Disjoint s t
Apart-Disjoint s t (inl h) a u v = omega (arith, u, v, h)
Apart-Disjoint s t (inr h) a u v = omega (arith, u, v, h)

ApartAll-DisjointAll : (s : SegmentInfo) (ts : List SegmentInfo) → ApartAll s ts → DisjointAll s ts
ApartAll-DisjointAll s [] h = tt
ApartAll-DisjointAll s (t ∷ ts) h = (Apart-Disjoint s t h.0, ApartAll-DisjointAll s ts h.1)

pub AllApart-AllDisjoint : (ss : List SegmentInfo) → AllApart ss → AllDisjoint ss
AllApart-AllDisjoint [] h = tt
AllApart-AllDisjoint (s ∷ ss) h = (ApartAll-DisjointAll s ss h.0, AllApart-AllDisjoint ss h.1)
