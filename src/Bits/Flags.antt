-- ===== src/Bits/Flags.antt =====
-- Flag words: `s & f` as a test, `s |= f` and `s &= ~f`, for flags `1 << k` of 32 bits.
use native.Mathlib.Nat.{one-le-pow, pow-le-pow_right}
use alephos.Prelude.{ℕ, ◌^◌, ◌<◌, bit_and, bit_or, ◌≡◌}
use alephos.Prelude.{Bool, not, ◌&&◌, ◌||◌, arith, ◌==◌}
use alephos.Bits.{
  test_bit, test_bit-or, test_bit-and, test_bit-pow, complement, test_bit-complement,
}
use alephos.Bits.{bit_and-pow}

unfoldable pub has_flag : ℕ → ℕ → Bool
has_flag s f = not (bit_and s f == 0)

unfoldable pub set_flag : ℕ → ℕ → ℕ
set_flag s f = bit_or s f

unfoldable pub clear_flag : ℕ → ℕ → ℕ
clear_flag s f = bit_and s (complement 32 f)

pub has_flag-bit : (k s : ℕ) → has_flag s (2 ^ k) ≡ test_bit s k
unfolding has_flag
has_flag-bit k s = ground (arith, bit_and-pow k s, one-le-pow k 2)

pub has_flag-set :
    (j k s : ℕ) → has_flag (set_flag s (2 ^ k)) (2 ^ j) ≡ (has_flag s (2 ^ j) || j == k)
unfolding set_flag
has_flag-set j k s =
    rw (
      has_flag-bit j (bit_or s (2 ^ k)),
      has_flag-bit j s,
      test_bit-or j s (2 ^ k),
      test_bit-pow j k,
    )

pow-lt-word : (k : ℕ) → k < 32 → 2 ^ k < 2 ^ 32
pow-lt-word k h =
    omega (arith, pow-le-pow_right {n = 2} (omega arith) {i = k} {j = 31} (omega arith))

pub has_flag-clear :
    (j k s : ℕ)
    → j < 32
    → k < 32
    → has_flag (clear_flag s (2 ^ k)) (2 ^ j) ≡ (has_flag s (2 ^ j) && not (j == k))
unfolding clear_flag
has_flag-clear j k s hj hk = rw (
  has_flag-bit j (bit_and s (complement 32 (2 ^ k))),
  has_flag-bit j s,
  test_bit-and j s (complement 32 (2 ^ k)),
  test_bit-complement 32 j (2 ^ k) hj (pow-lt-word k hk),
  test_bit-pow j k,
)
