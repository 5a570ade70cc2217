-- ===== src/Mm/Pmm/Bitmap.antt =====
-- The bitmap of kernel/src/mm/pmm.c: what `bitmap_set` and `bitmap_clear` do to `bitmap_test`.
use alephos.Prelude.{ℕ, zero, suc, ◌/◌, ◌%◌, ◌^◌, ◌<◌, bit_and, bit_or}
use alephos.Prelude.{◌≡◌, sym, ap, ◌∙◌, inl, inr, false, not, ◌&&◌, ◌||◌}
use alephos.Prelude.{List, [], ◌∷◌, arith}
use alephos.Prelude.{◌==◌, if◌then◌else◌, Bool-cases, ==→eq, ==→ne}
use alephos.Prelude.{
  length, get_or, set, length-set, get_or-set_self, get_or-set_ne, set-get_or, set-set,
}
use native.Mathlib.Nat.{one-le-pow, pow-le-pow_right}
use alephos.Bits.{
  test_bit, bit_and-pow, test_bit-or, test_bit-and, test_bit-pow, test_bit-complement, bit_or-lt,
  bit_and-lt, complement, test_bit_ext,
}
use alephos.Mm.Pmm.{bitmap_set, bitmap_clear, bitmap_test, entry_of, mask_of}

pub test-entry : (bm : List ℕ) (q : ℕ) → bitmap_test bm q ≡ test_bit (entry_of bm q) (q % 64)
unfolding bitmap_test
test-entry bm q = ground (arith, bit_and-pow (q % 64) (entry_of bm q), one-le-pow (q % 64) 2)

pub mask-lt : (p : ℕ) → mask_of p < 2 ^ 64
mask-lt p =
    omega (arith, pow-le-pow_right {n = 2} (omega arith) {i = p % 64} {j = 63} (omega arith))

-- The word that holds page `q` after a write to the word of page `p`.
entry-write :
    (bm : List ℕ) (p q w : ℕ)
    → p / 64 < length bm
    → entry_of (set bm (p / 64) w) q ≡ (if p / 64 == q / 64 then w else entry_of bm q)
entry-write bm p q w h = elim (Bool-cases (p / 64 == q / 64)) [
  | inl same ↦ rw (same, ← ==→eq (p / 64) (q / 64) same) (get_or-set_self bm (p / 64) w 0 h)
  | inr other ↦ rw (other, get_or-set_ne bm (p / 64) (q / 64) w 0 (==→ne _ _ other))
]

pub test-set :
    (bm : List ℕ) (p q : ℕ)
    → p / 64 < length bm
    → bitmap_test (bitmap_set bm p) q ≡ (bitmap_test bm q || q == p)
unfolding bitmap_set
test-set bm p q h =
    let w : ℕ = bit_or (entry_of bm p) (mask_of p) in
    rw (test-entry (set bm (p / 64) w) q, test-entry bm q, entry-write bm p q w h)
      (ground
        (arith, test_bit-or (q % 64) (entry_of bm p) (mask_of p), test_bit-pow (q % 64) (p % 64)))

pub test-clear :
    (bm : List ℕ) (p q : ℕ)
    → p / 64 < length bm
    → bitmap_test (bitmap_clear bm p) q ≡ (bitmap_test bm q && not (q == p))
unfolding bitmap_clear
test-clear bm p q h =
    let w : ℕ = bit_and (entry_of bm p) (complement 64 (mask_of p)) in
    let flipped = test_bit-complement 64 (q % 64) (mask_of p) (omega arith) (mask-lt p) in
    rw (test-entry (set bm (p / 64) w) q, test-entry bm q, entry-write bm p q w h)
      (ground (
        arith,
        test_bit-and (q % 64) (entry_of bm p) (complement 64 (mask_of p)),
        flipped,
        test_bit-pow (q % 64) (p % 64),
      ))

pub length-bitmap_set : (bm : List ℕ) (p : ℕ) → length (bitmap_set bm p) ≡ length bm
unfolding bitmap_set
length-bitmap_set bm p = length-set bm (p / 64) (bit_or (entry_of bm p) (mask_of p))

pub length-bitmap_clear : (bm : List ℕ) (p : ℕ) → length (bitmap_clear bm p) ≡ length bm
unfolding bitmap_clear
length-bitmap_clear bm p =
    length-set bm (p / 64) (bit_and (entry_of bm p) (complement 64 (mask_of p)))

-- Every word is one of 64 bits.
abbrev pub IsWords : List ℕ → Type 0
IsWords bm = (i : ℕ) → get_or bm i 0 < 2 ^ 64

IsWords-set : (bm : List ℕ) (i w : ℕ) → IsWords bm → w < 2 ^ 64 → IsWords (set bm i w)
IsWords-set [] i w words h j = words j
IsWords-set (x ∷ bm) zero w words h zero = h
IsWords-set (x ∷ bm) zero w words h (suc j) = words (suc j)
IsWords-set (x ∷ bm) (suc i) w words h zero = words zero
IsWords-set (x ∷ bm) (suc i) w words h (suc j) = IsWords-set bm i w (λ k. words (suc k)) h j

pub IsWords-bitmap_set : (bm : List ℕ) (p : ℕ) → IsWords bm → IsWords (bitmap_set bm p)
unfolding bitmap_set
IsWords-bitmap_set bm p words =
    IsWords-set bm (p / 64) (bit_or (entry_of bm p) (mask_of p)) words
      (bit_or-lt 64 (entry_of bm p) (mask_of p) (words (p / 64)) (mask-lt p))

pub IsWords-bitmap_clear : (bm : List ℕ) (p : ℕ) → IsWords bm → IsWords (bitmap_clear bm p)
unfolding bitmap_clear
IsWords-bitmap_clear bm p words =
    IsWords-set bm (p / 64) (bit_and (entry_of bm p) (complement 64 (mask_of p))) words
      (bit_and-lt 64 (entry_of bm p) (complement 64 (mask_of p)) (words (p / 64)))

or-and-complement :
    (e j : ℕ)
    → j < 64
    → e < 2 ^ 64
    → 2 ^ j < 2 ^ 64
    → test_bit e j ≡ false
    → bit_and (bit_or e (2 ^ j)) (complement 64 (2 ^ j)) ≡ e
or-and-complement e j hj he hm free =
    test_bit_ext 64 (bit_and (bit_or e (2 ^ j)) (complement 64 (2 ^ j))) e
      (bit_and-lt 64 (bit_or e (2 ^ j)) (complement 64 (2 ^ j)) (bit_or-lt 64 e (2 ^ j) he hm)) he
      λ i hi. ground (
        arith,
        test_bit-and i (bit_or e (2 ^ j)) (complement 64 (2 ^ j)),
        test_bit-or i e (2 ^ j),
        test_bit-complement 64 i (2 ^ j) hi hm,
        test_bit-pow i j,
      )

-- Marking a free page used and then free gives the same words back.
pub bitmap_clear-bitmap_set :
    (bm : List ℕ) (p : ℕ)
    → p / 64 < length bm
    → IsWords bm
    → bitmap_test bm p ≡ false
    → bitmap_clear (bitmap_set bm p) p ≡ bm
unfolding bitmap_clear bitmap_set
bitmap_clear-bitmap_set bm p h words free =
    let e : ℕ = entry_of bm p in
    let back : bit_and (bit_or e (mask_of p)) (complement 64 (mask_of p)) ≡ e =
      or-and-complement e (p % 64) (omega arith) (words (p / 64)) (mask-lt p)
        (sym (test-entry bm p) ∙ free) in
    rw (get_or-set_self bm (p / 64) (bit_or e (mask_of p)) 0 h) (
      set-set bm (p / 64) (bit_or e (mask_of p))
        (bit_and (bit_or e (mask_of p)) (complement 64 (mask_of p)))
      ∙ (ap (set bm (p / 64)) back ∙ set-get_or bm (p / 64) 0 h))
