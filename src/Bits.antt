-- ===== src/Bits.antt =====
-- Words read bit by bit: what `|`, `&`, `~` and a mask `1 << k` do to each bit.
mod Step
pub mod Flags
pub mod Disjoint
use Step.{bit_and_low, bit_or_low, zero-bit_and, bit_and-zero}
use native.Mathlib.Nat.{
  pow-suc, one-le-pow, mod-lt, mod-eq_of_lt, div-add-mod, add-mul-mod_self_left,
}
use alephos.Prelude.{
  ℕ, zero, suc, ◌+◌, ◌-◌, ◌*◌, ◌/◌, ◌%◌, ◌^◌, ◌≤◌, ◌<◌, min, max, bit_and, bit_or,
}
use alephos.Prelude.{
  ◌≡◌, refl, ap, ◌∙◌, Bool, true, false, not, ◌&&◌, ◌||◌, arith, ◌==◌, if◌then◌else◌,
}

-- bit `i` of a word
pub test_bit : ℕ → ℕ → Bool
test_bit a zero = a % 2 == 1
test_bit a (suc i) = test_bit (a / 2) i

pub test_bit-or : (i a b : ℕ) → test_bit (bit_or a b) i ≡ (test_bit a i || test_bit b i)
unfolding test_bit
test_bit-or zero a b = ground (arith, bit_or_low a b)
test_bit-or (suc i) a b =
    let half : bit_or a b / 2 ≡ bit_or (a / 2) (b / 2) = omega (arith, bit_or_low a b) in
    rw half (test_bit-or i (a / 2) (b / 2))

pub test_bit-and : (i a b : ℕ) → test_bit (bit_and a b) i ≡ (test_bit a i && test_bit b i)
unfolding test_bit
test_bit-and zero a b = ground (arith, bit_and_low a b)
test_bit-and (suc i) a b =
    let half : bit_and a b / 2 ≡ bit_and (a / 2) (b / 2) = omega (arith, bit_and_low a b) in
    rw half (test_bit-and i (a / 2) (b / 2))

pub test_bit-zero : (i : ℕ) → test_bit 0 i ≡ false
unfolding test_bit
test_bit-zero zero = refl
test_bit-zero (suc i) = test_bit-zero i

-- `1 << j` has bit `j` alone.
pub test_bit-pow : (i j : ℕ) → test_bit (2 ^ j) i ≡ (i == j)
unfolding test_bit
test_bit-pow zero zero = refl
test_bit-pow zero (suc j) = ground (arith, pow-suc 2 j)
test_bit-pow (suc i) zero = ground (arith, test_bit-zero i)
test_bit-pow (suc i) (suc j) =
    let half : 2 ^ suc j / 2 ≡ 2 ^ j = omega (arith, pow-suc 2 j) in
    rw half (ground (arith, test_bit-pow i j))

-- `~a` in a word of `w` bits
abbrev pub complement : ℕ → ℕ → ℕ
complement w a = 2 ^ w - 1 - a

pub test_bit-complement :
    (w i a : ℕ) → i < w → a < 2 ^ w → test_bit (complement w a) i ≡ not (test_bit a i)
unfolding test_bit
test_bit-complement zero i a h fits = absurd (omega arith)
test_bit-complement (suc w) zero a h fits = ground (arith, pow-suc 2 w)
test_bit-complement (suc w) (suc i) a h fits =
    let half : complement (suc w) a / 2 ≡ complement w (a / 2) = omega (arith, pow-suc 2 w) in
    rw half (test_bit-complement w i (a / 2) (omega arith) (omega (arith, pow-suc 2 w)))

-- Words of one width with the same bits are the same.
pub test_bit_ext :
    (w a b : ℕ) → a < 2 ^ w → b < 2 ^ w → ((i : ℕ) → i < w → test_bit a i ≡ test_bit b i) → a ≡ b
unfolding test_bit
test_bit_ext zero a b p q same = omega arith
test_bit_ext (suc w) a b p q same = ground (
  arith,
  pow-suc 2 w,
  same 0 (omega arith),
  test_bit_ext w (a / 2) (b / 2) (omega (arith, pow-suc 2 w)) (omega (arith, pow-suc 2 w))
      (λ i h. same (suc i) (omega arith)),
)

pub bit_or-lt : (w a b : ℕ) → a < 2 ^ w → b < 2 ^ w → bit_or a b < 2 ^ w
bit_or-lt zero a b p q = let z : a ≡ 0 = omega arith in let y : b ≡ 0 = omega arith in ground arith
bit_or-lt (suc w) a b p q = omega (
  arith,
  pow-suc 2 w,
  bit_or_low a b,
  bit_or-lt w (a / 2) (b / 2) (omega (arith, pow-suc 2 w)) (omega (arith, pow-suc 2 w)),
)

pub bit_and-lt : (w a b : ℕ) → a < 2 ^ w → bit_and a b < 2 ^ w
bit_and-lt zero a b p = let z : a ≡ 0 = omega arith in rw (z, zero-bit_and b) (omega arith)
bit_and-lt (suc w) a b p =
    omega (
      arith,
      pow-suc 2 w,
      bit_and_low a b,
      bit_and-lt w (a / 2) (b / 2) (omega (arith, pow-suc 2 w)),
    )

mod-double : (a p : ℕ) → 0 < p → a % (p * 2) ≡ a / 2 % p * 2 + a % 2
mod-double a p h =
    let r : ℕ = a / 2 % p * 2 + a % 2 in
    let q : ℕ = a / 2 / p in
    let small : r < p * 2 = omega (arith, mod-lt (a / 2) h) in
    let whole : a ≡ r + p * 2 * q = omega (arith, div-add-mod (a / 2) p) in
    ap (λ (t : ℕ). t % (p * 2)) whole ∙ add-mul-mod_self_left r (p * 2) q ∙ mod-eq_of_lt small

-- A mask of the `k` low bits leaves the remainder.
pub bit_and_ones : (k a : ℕ) → bit_and a (2 ^ k - 1) ≡ a % 2 ^ k
bit_and_ones zero a = omega (arith, bit_and-zero a)
bit_and_ones (suc k) a =
    let half : (2 ^ suc k - 1) / 2 ≡ 2 ^ k - 1 = omega (arith, pow-suc 2 k, one-le-pow k 2) in
    let odd : (2 ^ suc k - 1) % 2 ≡ 1 = omega (arith, pow-suc 2 k, one-le-pow k 2) in
    rw (bit_and_low a (2 ^ suc k - 1), half, odd, bit_and_ones k (a / 2), pow-suc 2 k)
      (omega (arith, mod-double a (2 ^ k) (one-le-pow k 2 (omega arith))))

-- `a & (1 << k)` is the bit at its place.
pub bit_and-pow : (k a : ℕ) → bit_and a (2 ^ k) ≡ (if test_bit a k then 2 ^ k else 0)
unfolding test_bit
bit_and-pow zero a = ground (arith, bit_and_ones 1 a)
bit_and-pow (suc k) a =
    let half : 2 ^ suc k / 2 ≡ 2 ^ k = omega (arith, pow-suc 2 k) in
    let even : 2 ^ suc k % 2 ≡ 0 = omega (arith, pow-suc 2 k) in
    rw (bit_and_low a (2 ^ suc k), half, even, bit_and-pow k (a / 2)) (ground (arith, pow-suc 2 k))
