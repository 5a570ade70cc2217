-- ===== src/Bits/Disjoint.antt =====
-- `|` of words without a common bit, as in an address with its flags.
use alephos.Prelude.{ℕ, zero, suc, ◌+◌, ◌*◌, ◌/◌, ◌^◌, ◌≤◌, ◌<◌, bit_or}
use alephos.Prelude.{◌≡◌, refl, sym, ap, ap₂, ◌∙◌, subst, inl, inr}
use alephos.Prelude.{arith}
use alephos.Prelude.{◌==◌, Bool-cases, ==→eq, ==→ne}
use alephos.Bits.Step.{bit_or_low}
use native.Mathlib.Nat.{pow-suc}

bit_or-zero_below : (n a : ℕ) → a ≤ n → bit_or a 0 ≡ a
bit_or-zero_below zero a h = subst (λ x. bit_or x 0 ≡ x) {x = 0} (omega arith) refl
bit_or-zero_below (suc n) a h = elim (Bool-cases (a == 0)) [
  | inl e ↦ subst (λ x. bit_or x 0 ≡ x) (sym (==→eq a 0 e)) refl
  | inr e ↦ omega (arith, bit_or_low a 0, bit_or-zero_below n (a / 2) (omega (arith, ==→ne a 0 e)))
]

bit_or-zero : (a : ℕ) → bit_or a 0 ≡ a
bit_or-zero a = bit_or-zero_below a a (omega arith)

-- A multiple of 2 ^ k and less than that have no bit in common.
pub bit_or-disjoint : (k a b : ℕ) → b < 2 ^ k → bit_or (a * 2 ^ k) b ≡ a * 2 ^ k + b
bit_or-disjoint zero a b h =
    ap₂ bit_or {v = 0} (omega arith) (omega arith) ∙ bit_or-zero a ∙ omega arith
bit_or-disjoint (suc k) a b h =
    let double : a * 2 ^ suc k ≡ a * 2 ^ k * 2 = omega (arith, ap (λ x. a * x) (pow-suc 2 k)) in
    let half : bit_or (a * 2 ^ suc k / 2) (b / 2) ≡ a * 2 ^ k + b / 2 =
      ap (λ x. bit_or x (b / 2)) {y = a * 2 ^ k} (omega (arith, double))
      ∙ bit_or-disjoint k a (b / 2) (omega (arith, pow-suc 2 k, h)) in
    omega (arith, bit_or_low (a * 2 ^ suc k) b, double, half)

-- `| 1` sets the lowest bit.
pub bit_or-one : (a : ℕ) → bit_or a 1 ≡ a / 2 * 2 + 1
bit_or-one a = omega (arith, bit_or_low a 1, bit_or-zero (a / 2))
