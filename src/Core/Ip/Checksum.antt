-- ===== src/Core/Ip/Checksum.antt =====
-- ip_calculate_checksum of kernel/src/core/drivers/net/ip.c against the sum that it checks.
use alephos.Prelude.{ℕ, zero, suc, ◌+◌, ◌-◌, ◌*◌, ◌/◌, ◌%◌, ◌^◌, ◌≤◌, ◌<◌}
use alephos.Prelude.{◌≡◌, refl, ap, ◌∙◌, inl, inr}
use alephos.Prelude.{some, arith}
use alephos.Prelude.{ltb, ◌==◌, if◌then◌else◌, Bool-cases, ltb→lt, eq→==, ne→==}
use alephos.Prelude.{u16, u32}
use alephos.Prelude.{◌>>=◌}
use alephos.Utils.Mem.{Memory}
use alephos.Core.Elf.{read_le}
use alephos.Core.Ip.{add_words, fold_sum, sum_bytes, ip_calculate_checksum}

-- The words of 16 bits from index `i` on, `n` of them, added without a bound.
abbrev pub words : Memory → ℕ → ℕ → ℕ → ℕ
words m a zero i = 0
words m a (suc n) i = (m (a + 2 * i) + 256 * m (a + 2 * i + 1)) + words m a n (i + 1)

-- The number that the checksum is for, the last byte of an odd length taken as a high one.
abbrev pub content : Memory → ℕ → ℕ → ℕ
content m a len = words m a (len / 2) 0 + (if len % 2 == 1 then m (a + len - 1) * 256 else 0)

abbrev pub IsBytes : Memory → Type 0
IsBytes m = (a : ℕ) → m a < 256

words-le : (m : Memory) (a n i : ℕ) → IsBytes m → words m a n i ≤ n * 65535
words-le m a zero i b = omega arith
words-le m a (suc n) i b = omega (arith, b (a + 2 * i), b (a + 2 * i + 1), words-le m a n (i + 1) b)

add_words-words :
    (m : Memory) (a n i sum : ℕ)
    → sum + words m a n i < 2 ^ 32
    → add_words m a n i sum ≡ sum + words m a n i
unfolding add_words read_le
add_words-words m a zero i sum h = omega arith
add_words-words m a (suc n) i sum h =
    let next : u32 (sum + (m (a + 2 * i) + 256 * (m (a + 2 * i + 1) + 256 * 0)))
        ≡ sum + (m (a + 2 * i) + 256 * m (a + 2 * i + 1)) =
      omega arith in
    ap (add_words m a n (i + 1)) next
    ∙ add_words-words m a n (i + 1) (sum + (m (a + 2 * i) + 256 * m (a + 2 * i + 1)))
        (omega (arith, h))
    ∙ omega arith

sum_bytes-content :
    (m : Memory) (a len : ℕ)
    → IsBytes m
    → len < 2 ^ 16
    → (sum_bytes m a len ≡ content m a len) × (content m a len < 2 ^ 32)
unfolding sum_bytes
sum_bytes-content m a len b h =
    let few : words m a (len / 2) 0 ≤ len / 2 * 65535 = words-le m a (len / 2) 0 b in
    let added : add_words m a (len / 2) 0 0 ≡ words m a (len / 2) 0 =
      add_words-words m a (len / 2) 0 0 (omega (arith, few)) ∙ omega arith in
    let last : m (a + len - 1) < 256 = b (a + len - 1) in
    (ground (arith, added, few, last), ground (arith, few, last))

abbrev folded : ℕ → ℕ
folded s = s % 2 ^ 16 + s / 2 ^ 16

fold_sum-done : (fuel s : ℕ) → s < 2 ^ 16 → fold_sum (suc fuel) s ≡ some s
unfolding fold_sum
fold_sum-done fuel s h =
    ap (λ b. if b then some s else fold_sum fuel (folded s)) (eq→== (s / 2 ^ 16) 0 (omega arith))

fold_sum-more : (fuel s : ℕ) → 2 ^ 16 ≤ s → fold_sum (suc fuel) s ≡ fold_sum fuel (folded s)
unfolding fold_sum
fold_sum-more fuel s h =
    ap (λ b. if b then some s else fold_sum fuel (folded s))
      (ne→== (s / 2 ^ 16) 0 (λ e. omega (arith, e)))

folded-mod : (s : ℕ) → folded s % 65535 ≡ s % 65535
folded-mod s = omega arith

-- The loop ends, and keeps the sum modulo 65535.
fold_sum-small :
    (s : ℕ)
    → s < 2 ^ 32
    → (t : ℕ) × (fold_sum 3 s ≡ some t) × (t < 2 ^ 16) × (t % 65535 ≡ s % 65535)
fold_sum-small s h = elim (Bool-cases (ltb s 65536)) [
  | inl small ↦ (s, fold_sum-done 2 s (ltb→lt s 65536 small), ltb→lt s 65536 small, refl)
  | inr large ↦
      let above : 2 ^ 16 ≤ s = ground (arith, large) in
      elim (Bool-cases (ltb (folded s) 65536)) [
        | inl small ↦ (
          folded s,
          fold_sum-more 2 s above ∙ fold_sum-done 1 (folded s) (ltb→lt (folded s) 65536 small),
          ltb→lt (folded s) 65536 small,
          folded-mod s,
        )
        | inr large' ↦
            let above' : 2 ^ 16 ≤ folded s = ground (arith, large') in
            let below : folded (folded s) < 2 ^ 16 = omega (arith, above', h) in
            (
              folded (folded s),
              fold_sum-more 2 s above
                  ∙ fold_sum-more 1 (folded s) above'
                  ∙ fold_sum-done 0 (folded (folded s)) below,
              below,
              folded-mod (folded s) ∙ folded-mod s,
            )
      ]
]

-- The loops of ip_calculate_checksum end, the second within three rounds, and the checksum and
-- the words of the data, the last byte of an odd length taken as a high one, add up to a
-- multiple of 65535.
pub ip_calculate_checksum-content :
    (m : Memory) (a len : ℕ)
    → IsBytes m
    → len < 2 ^ 16
    → (c : ℕ) × (ip_calculate_checksum m a len ≡ some c)
      × (c < 2 ^ 16)
      × ((content m a len + c) % 65535 ≡ 0)
unfolding ip_calculate_checksum
ip_calculate_checksum-content m a len b h =
    let (same, small) = sum_bytes-content m a len b h in
    let (t, e, low, same_rest) = fold_sum-small (sum_bytes m a len) (omega (arith, same, small)) in
    (
      u16 (2 ^ 32 - 1 - t),
      ap (λ o. o >>= λ s. some (u16 (2 ^ 32 - 1 - s))) e,
      omega arith,
      omega (arith, same_rest, same, low),
    )
