-- ===== src/Mm/Pmm/Count.antt =====
-- How many pages the bitmap of kernel/src/mm/pmm.c leaves free.
use alephos.Prelude.{ℕ, zero, suc, ◌+◌, ◌/◌, ◌≤◌, ◌<◌}
use alephos.Prelude.{◌≡◌, refl, true, false}
use alephos.Prelude.{List, arith}
use alephos.Prelude.{ltb, if◌then◌else◌}
use alephos.Prelude.{length}
use alephos.Mm.Pmm.{bitmap_set, bitmap_clear, bitmap_test}
use alephos.Mm.Pmm.Bitmap.{test-set, test-clear}

-- The clear bits among the first `n`.
unfoldable pub free_count : List ℕ → ℕ → ℕ
free_count bm zero = 0
free_count bm (suc n) = (if bitmap_test bm n then 0 else 1) + free_count bm n

-- A page newly marked used is one free page less, if it is among those counted.
pub free_count-set :
    (bm : List ℕ) (p n : ℕ)
    → p / 64 < length bm
    → bitmap_test bm p ≡ false
    → free_count (bitmap_set bm p) n + (if ltb p n then 1 else 0) ≡ free_count bm n
unfolding free_count
free_count-set bm p zero h free = ground arith
free_count-set bm p (suc n) h free = ground (arith, test-set bm p n h, free_count-set bm p n h free)

pub free_count-clear :
    (bm : List ℕ) (p n : ℕ)
    → p / 64 < length bm
    → bitmap_test bm p ≡ true
    → free_count (bitmap_clear bm p) n ≡ free_count bm n + (if ltb p n then 1 else 0)
unfolding free_count
free_count-clear bm p zero h used = ground arith
free_count-clear bm p (suc n) h used =
    ground (arith, test-clear bm p n h, free_count-clear bm p n h used)

pub free_count-le : (bm : List ℕ) (n : ℕ) → free_count bm n ≤ n
unfolding free_count
free_count-le bm zero = omega arith
free_count-le bm (suc n) = ground (arith, free_count-le bm n)

-- A free page among those counted is counted.
pub free_count-pos :
    (bm : List ℕ) (p n : ℕ) → p < n → bitmap_test bm p ≡ false → 0 < free_count bm n
unfolding free_count
free_count-pos bm p zero h free = absurd (omega arith)
free_count-pos bm p (suc n) h free = ground (arith, free_count-pos bm p n)

pub all_used-free_count :
    (bm : List ℕ) (n : ℕ) → ((q : ℕ) → q < n → bitmap_test bm q ≡ true) → free_count bm n ≡ 0
unfolding free_count
all_used-free_count bm zero used = refl
all_used-free_count bm (suc n) used =
    rw (used n (omega arith))
      (omega (arith, all_used-free_count bm n (λ q h. used q (omega arith))))
