-- ===== src/Mm/Pmm/Search.antt =====
-- The search of `pmm_alloc_page` (kernel/src/mm/pmm.c) for a clear bit.
use alephos.Prelude.{ℕ, zero, suc, ◌+◌, ◌-◌, ◌*◌, ◌/◌, ◌%◌, ◌^◌, ◌≤◌, ◌<◌, bit_and}
use alephos.Prelude.{◌≡◌, refl, ap, ap₂, ◌∙◌, subst, inl, inr, true, false, not}
use alephos.Prelude.{Option, none, some, List, arith}
use alephos.Prelude.{ltb, ◌==◌, Bool-cases, Option-cases, ltb→lt, ltb→le, ==→eq}
use alephos.Prelude.{get_or}
use alephos.Bits.{test_bit, bit_and-pow, test_bit-complement, test_bit-zero}
use native.Mathlib.Nat.{one-le-pow}
use alephos.Mm.Pmm.{bitmap_test, find_bit, find_page}
use alephos.Mm.Pmm.Bitmap.{test-entry}

bit_clear : (e b : ℕ) → (bit_and e (2 ^ b) == 0) ≡ not (test_bit e b)
bit_clear e b = ground (arith, bit_and-pow b e, one-le-pow b 2)

-- All bits from `lo` up to `hi` are set.
abbrev pub AllSet : ℕ → ℕ → ℕ → Type 0
AllSet e lo hi = (c : ℕ) → lo ≤ c → c < hi → test_bit e c ≡ true

AllSet-extend : (e lo hi : ℕ) → test_bit e lo ≡ true → AllSet e (lo + 1) hi → AllSet e lo hi
AllSet-extend e lo hi first more c p q = elim (Bool-cases (lo == c)) [
  | inl same ↦ ground arith
  | inr other ↦ more c (ground arith) q
]

-- What the inner loop finds: the first clear bit, or none in reach.
abbrev pub FirstBit : ℕ → ℕ → ℕ → Option ℕ → Type 0
FirstBit e lo hi none = AllSet e lo hi
FirstBit e lo hi (some b) = (lo ≤ b) × (b < hi) × (test_bit e b ≡ false) × AllSet e lo b

FirstBit-extend :
    (e lo hi : ℕ) (r : Option ℕ)
    → test_bit e lo ≡ true
    → FirstBit e (lo + 1) hi r
    → FirstBit e lo hi r
FirstBit-extend e lo hi none first f = AllSet-extend e lo hi first f
FirstBit-extend e lo hi (some b) first f = (omega arith, f.1, f.2, AllSet-extend e lo b first f.3)

pub find_bit-FirstBit : (e n lo hi : ℕ) → lo + n ≡ hi → FirstBit e lo hi (find_bit e n lo)
unfolding find_bit
find_bit-FirstBit e zero lo hi at = λ c p q. absurd (omega arith)
find_bit-FirstBit e (suc n) lo hi at = elim (Bool-cases (test_bit e lo)) [
  | inl taken ↦
      rw (bit_clear e lo, taken)
        (FirstBit-extend e lo hi (find_bit e n (lo + 1)) taken
          (find_bit-FirstBit e n (lo + 1) hi (omega arith)))
  | inr clear ↦
      rw (bit_clear e lo, clear) (omega arith, omega arith, clear, λ c p q. absurd (omega arith))
]

pub ones-AllSet : AllSet (2 ^ 64 - 1) 0 64
ones-AllSet c p q = ground (arith, test_bit-complement 64 c 0 q, test_bit-zero c)

-- All pages from `lo` up to `hi` are used.
abbrev pub AllUsed : List ℕ → ℕ → ℕ → Type 0
AllUsed bm lo hi = (q : ℕ) → lo ≤ q → q < hi → bitmap_test bm q ≡ true

-- What the outer loop finds: the first free page, or none in reach.
abbrev pub FirstPage : List ℕ → ℕ → ℕ → Option ℕ → Type 0
FirstPage bm lo hi none = AllUsed bm lo hi
FirstPage bm lo hi (some p) = (lo ≤ p) × (p < hi) × (bitmap_test bm p ≡ false) × AllUsed bm lo p

-- The pages of one word.
word-AllUsed :
    (bm : List ℕ) (idx k : ℕ)
    → k ≤ 64
    → AllSet (get_or bm idx 0) 0 k
    → AllUsed bm (idx * 64) (idx * 64 + k)
word-AllUsed bm idx k h ones q lo hi =
    let word : q / 64 ≡ idx = omega arith in
    test-entry bm q
    ∙ (ap (λ i. test_bit (get_or bm i 0) (q % 64)) word ∙ ones (q % 64) (omega arith) (omega arith))

AllUsed-join :
    (bm : List ℕ) (lo mid hi : ℕ) → AllUsed bm lo mid → AllUsed bm mid hi → AllUsed bm lo hi
AllUsed-join bm lo mid hi f g q p h = elim (Bool-cases (ltb q mid)) [
  | inl below ↦ f q p (ltb→lt _ _ below)
  | inr above ↦ g q (ltb→le _ _ above) h
]

FirstPage-extend :
    (bm : List ℕ) (lo mid hi : ℕ) (r : Option ℕ)
    → lo ≤ mid
    → AllUsed bm lo mid
    → FirstPage bm mid hi r
    → FirstPage bm lo hi r
FirstPage-extend bm lo mid hi none h f g = AllUsed-join bm lo mid hi f g
FirstPage-extend bm lo mid hi (some p) h f g =
    (omega arith, g.1, g.2, AllUsed-join bm lo mid p f g.3)

found_page :
    (bm : List ℕ) (idx hi b : ℕ)
    → (idx + 1) * 64 ≤ hi
    → FirstBit (get_or bm idx 0) 0 64 (some b)
    → FirstPage bm (idx * 64) hi (some (idx * 64 + b))
found_page bm idx hi b h f =
    let word : (idx * 64 + b) / 64 ≡ idx = omega (arith, f.1) in
    let bit : (idx * 64 + b) % 64 ≡ b = omega (arith, f.1) in
    (
      omega arith,
      omega (arith, f.1),
      test-entry bm (idx * 64 + b) ∙ (ap₂ (λ i c. test_bit (get_or bm i 0) c) word bit ∙ f.2),
      word-AllUsed bm idx b (omega (arith, f.1)) f.3,
    )

pub find_page-FirstPage :
    (bm : List ℕ) (n idx hi : ℕ)
    → (idx + n) * 64 ≡ hi
    → FirstPage bm (idx * 64) hi (find_page bm n idx)
unfolding find_page
find_page-FirstPage bm zero idx hi at = λ q p h. absurd (omega arith)
find_page-FirstPage bm (suc n) idx hi at =
    let entry : ℕ = get_or bm idx 0 in
    let next = find_page-FirstPage bm n (idx + 1) hi (omega arith) in
    let skip = λ (ones : AllSet entry 0 64).
      FirstPage-extend bm (idx * 64) ((idx + 1) * 64) hi (find_page bm n (idx + 1)) (omega arith)
        (λ q p h. word-AllUsed bm idx 64 (omega arith) ones q p (omega arith)) next in
    let found =
      λ (b : ℕ) (f : FirstBit entry 0 64 (some b)). found_page bm idx hi b (omega arith) f in
    elim (Bool-cases (entry == 2 ^ 64 - 1)) [
      | inl full ↦ rw full (skip (rw (==→eq entry (2 ^ 64 - 1) full) ones-AllSet))
      | inr room ↦ rw room (elim (Option-cases (find_bit entry 64 0)) [
        | inl full ↦
            rw full (skip (subst (FirstBit entry 0 64) full (find_bit-FirstBit entry 64 0 64 refl)))
        | inr (b, at_b) ↦
            rw at_b
              (found b (subst (FirstBit entry 0 64) at_b (find_bit-FirstBit entry 64 0 64 refl)))
      ])
    ]
