-- ===== src/Utils/Mem/Copies.antt =====
-- What memset, memcpy and memmove of kernel/src/utils/mem.c leave in memory.
use alephos.Prelude.{ℕ, zero, suc, ◌+◌, ◌-◌, ◌%◌, ◌≤◌, ◌<◌}
use alephos.Prelude.{◌≡◌, refl, sym, ap, ◌∙◌, ◌≢◌, ◌⊎◌, inl, inr, true, false, ◌&&◌}
use alephos.Prelude.{arith}
use alephos.Prelude.{ltb, leb, ◌==◌, if◌then◌else◌, Bool-cases, ltb→lt, ==→eq, ==→ne, eq→==, ne→==}
use alephos.Prelude.{u8}
use alephos.Utils.Mem.{Memory, put, fill, memset, copy_up, copy_down, memcpy, memmove}

-- Memory after a copy of `n` bytes: each byte of the target is the one that was in the source.
abbrev pub copied : Memory → ℕ → ℕ → ℕ → Memory
copied m dest src n a = if leb dest a && ltb a (dest + n) then m (src + (a - dest)) else m a

put-at : (m : Memory) (a b c : ℕ) → a ≡ b → put m a c b ≡ c
unfolding put
put-at m a b c e = rw (eq→== a b e) refl

put-off : (m : Memory) (a b c : ℕ) → a ≢ b → put m a c b ≡ m b
unfolding put
put-off m a b c e = rw (ne→== a b e) refl

fill-range :
    (n : ℕ) (m : Memory) (s c i a : ℕ)
    → fill m s c i n a ≡ (if leb (s + i) a && ltb a (s + i + n) then c else m a)
unfolding fill put
fill-range zero m s c i a = ground arith
fill-range (suc n) m s c i a = fill-range n (put m (s + i) c) s c (i + 1) a ∙ ground arith

-- memset puts the low byte of its argument everywhere in the range and nowhere else.
pub memset-range :
    (m : Memory) (s c n a : ℕ)
    → memset m s c n a ≡ (if leb s a && ltb a (s + n) then c % 256 else m a)
unfolding memset
memset-range m s c n a = fill-range n m s (u8 c) 0 a ∙ ground arith

-- One byte was put at `p`, and the copy goes on from `p + 1` to `end`.
copy-step :
    (m : Memory) (d s a p q end end' from : ℕ)
    → q ≡ p + 1
    → end' ≡ end
    → (a ≡ p → s + (a - d) ≡ from)
    → (q ≤ a → a < end' → p ≢ s + (a - d))
    → p < end
    → (if leb q a && ltb a end' then put m p (m from) (s + (a - d)) else put m p (m from) a)
      ≡ (if leb p a && ltb a end then m (s + (a - d)) else m a)
copy-step m d s a p q end end' from hq he here apart less =
    elim (Bool-cases (leb q a && ltb a end')) [
      | inl inside ↦
          let both : (leb p a && ltb a end) ≡ true = ground arith in
          rw (inside, both)
            (put-off m p (s + (a - d)) (m from) (apart (ground arith) (ground arith)))
      | inr outside ↦ rw outside (elim (Bool-cases (p == a)) [
        | inl e ↦
            let same : p ≡ a = ==→eq p a e in
            let both : (leb p a && ltb a end) ≡ true = ground arith in
            rw both (put-at m p a (m from) same ∙ ap m (sym (here (sym same))))
        | inr e ↦
            let none_there : (leb p a && ltb a end) ≡ false = ground arith in
            rw none_there (put-off m p a (m from) (==→ne p a e))
      ])
    ]

copy_up-range :
    (n : ℕ) (m : Memory) (d s i a : ℕ)
    → (d ≤ s) ⊎ (s + (i + n) ≤ d)
    → copy_up m d s i n a ≡ (if leb (d + i) a && ltb a (d + i + n) then m (s + (a - d)) else m a)
unfolding copy_up
copy_up-range zero m d s i a h = ground arith
copy_up-range (suc n) m d s i a h =
    copy_up-range n (put m (d + i) (m (s + i))) d s (i + 1) a (shift h)
    ∙ copy-step m d s a (d + i) (d + (i + 1)) (d + i + suc n) (d + (i + 1) + n) (s + i)
        (omega arith) (omega arith) (λ e. ap (λ x. s + (x - d)) e ∙ omega arith)
        (λ lo hi. apart h lo hi) (omega arith)
  where
    shift : (d ≤ s) ⊎ (s + (i + suc n) ≤ d) → (d ≤ s) ⊎ (s + (i + 1 + n) ≤ d)
    shift (inl e) = inl e
    shift (inr e) = inr (omega arith)

    apart :
        (d ≤ s) ⊎ (s + (i + suc n) ≤ d)
        → d + (i + 1) ≤ a
        → a < d + (i + 1) + n
        → d + i ≢ s + (a - d)
    apart (inl e) lo hi = λ x. absurd (omega arith)
    apart (inr e) lo hi = λ x. absurd (omega arith)

down-step :
    (m : Memory) (d s n a : ℕ)
    → s < d
    → copied (put m (d + n) (m (s + n))) d s n a ≡ copied m d s (suc n) a
down-step m d s n a h = elim (Bool-cases (leb d a && ltb a (d + n))) [
  | inl inside ↦
      let both : (leb d a && ltb a (d + suc n)) ≡ true = ground arith in
      let apart : d + n ≢ s + (a - d) = λ e. absurd (ground arith) in
      rw (inside, both) (put-off m (d + n) (s + (a - d)) (m (s + n)) apart)
  | inr outside ↦ rw outside (elim (Bool-cases (d + n == a)) [
    | inl e ↦
        let same : d + n ≡ a = ==→eq (d + n) a e in
        let both : (leb d a && ltb a (d + suc n)) ≡ true = ground arith in
        let from : s + n ≡ s + (a - d) = omega arith in
        rw both (put-at m (d + n) a (m (s + n)) same ∙ ap m from)
    | inr e ↦
        let none_there : (leb d a && ltb a (d + suc n)) ≡ false = ground arith in
        rw none_there (put-off m (d + n) a (m (s + n)) (==→ne (d + n) a e))
  ])
]

copy_down-range : (n : ℕ) (m : Memory) (d s a : ℕ) → s < d → copy_down m d s n a ≡ copied m d s n a
unfolding copy_down
copy_down-range zero m d s a h = ground arith
copy_down-range (suc n) m d s a h =
    copy_down-range n (put m (d + n) (m (s + n))) d s a h ∙ down-step m d s n a h

-- memcpy copies its range, where the target does not begin inside the source.
pub memcpy-copied :
    (m : Memory) (d s n a : ℕ) → (d ≤ s) ⊎ (s + n ≤ d) → memcpy m d s n a ≡ copied m d s n a
unfolding memcpy
memcpy-copied m d s n a h =
    copy_up-range n m d s 0 a (start h)
    ∙ ap (λ k. if leb k a && ltb a (k + n) then m (s + (a - d)) else m a) {x = d + 0} {y = d}
        (omega arith)
  where
    start : (d ≤ s) ⊎ (s + n ≤ d) → (d ≤ s) ⊎ (s + (0 + n) ≤ d)
    start (inl e) = inl e
    start (inr e) = inr (omega arith)

-- memmove copies its range, however source and target overlap: each byte of the target is the
-- one that was in the source, and every other byte of memory is kept.
pub memmove-copied : (m : Memory) (d s n a : ℕ) → memmove m d s n a ≡ copied m d s n a
unfolding memmove memcpy
memmove-copied m d s n a = elim (Bool-cases (ltb d s)) [
  | inl below ↦ rw below (memcpy-copied m d s n a (inl (ground arith)))
  | inr rest ↦ rw rest (elim (Bool-cases (ltb s d)) [
    | inl above ↦ rw above (copy_down-range n m d s a (ltb→lt s d above))
    | inr equal ↦ rw equal (elim (Bool-cases (leb d a && ltb a (d + n))) [
      | inl inside ↦ let self : a ≡ s + (a - d) = ground arith in rw inside (ap m self)
      | inr outside ↦ rw outside refl
    ])
  ])
]
