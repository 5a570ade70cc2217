-- ===== src/Utils/Mem/Compares.antt =====
-- What memcmp of kernel/src/utils/mem.c finds.
use alephos.Prelude.{ℕ, zero, suc, ◌+◌, ◌-◌, ◌≤◌, ◌<◌}
use alephos.Prelude.{◌≡◌, refl, sym, ap, ◌∙◌, subst, ◌≢◌, ◌⊎◌, inl, inr, true, false, ◌&&◌}
use alephos.Prelude.{arith}
use alephos.Prelude.{ltb, leb, ◌==◌, if◌then◌else◌, Bool-cases, ==→eq, eq→==, ne→==}
use alephos.Utils.Mem.{Memory, null, negative, positive, compare_from, memcmp, memcpy}
use alephos.Utils.Mem.Copies.{memcpy-copied}

compare_from-first :
    (n : ℕ) (m : Memory) (s1 s2 i j : ℕ)
    → i ≤ j
    → j ≤ i + n
    → ((k : ℕ) → i ≤ k → k < j → m (s1 + k) ≡ m (s2 + k))
    → (j ≡ i + n) ⊎ (m (s1 + j) ≢ m (s2 + j))
    → compare_from m s1 s2 i n ≡ (
        if j == i + n then null else (if ltb (m (s1 + j)) (m (s2 + j)) then negative else positive))
unfolding compare_from
compare_from-first zero m s1 s2 i j lo hi same end =
    let last : (j == i + 0) ≡ true = ground arith in rw last refl
compare_from-first (suc n) m s1 s2 i j lo hi same end = elim (Bool-cases (i == j)) [
  | inl e ↦
      let here : i ≡ j = ==→eq i j e in
      let inner : (j == i + suc n) ≡ false = ground arith in
      let differ : (m (s1 + i) == m (s2 + i)) ≡ false =
        subst (λ k. (m (s1 + k) == m (s2 + k)) ≡ false) (sym here) (apart here end) in
      rw (inner, differ)
        (ap (λ k. if ltb (m (s1 + k)) (m (s2 + k)) then negative else positive) here)
  | inr e ↦
      let equal : (m (s1 + i) == m (s2 + i)) ≡ true =
        eq→== _ _ (same i (omega arith) (ground arith)) in
      rw equal (
        compare_from-first n m s1 s2 (i + 1) j (ground arith) (omega arith)
          (λ k a b. same k (omega arith) b) (onwards end)
        ∙ ap
            (λ x.
              if j == x
              then null
              else (if ltb (m (s1 + j)) (m (s2 + j)) then negative else positive))
            {x = i + 1 + n} {y = i + suc n} (omega arith))
]
  where
    apart : i ≡ j → (j ≡ i + suc n) ⊎ (m (s1 + j) ≢ m (s2 + j)) → (m (s1 + j) == m (s2 + j)) ≡ false
    apart h (inl x) = absurd (omega arith)
    apart h (inr x) = ne→== _ _ x

    onwards :
        (j ≡ i + suc n) ⊎ (m (s1 + j) ≢ m (s2 + j)) → (j ≡ i + 1 + n) ⊎ (m (s1 + j) ≢ m (s2 + j))
    onwards (inl x) = inl (omega arith)
    onwards (inr x) = inr x

-- memcmp returns the sign of the first difference of the two ranges, and 0 if there is none.
pub memcmp-first :
    (m : Memory) (s1 s2 n j : ℕ)
    → j ≤ n
    → ((k : ℕ) → k < j → m (s1 + k) ≡ m (s2 + k))
    → (j ≡ n) ⊎ (m (s1 + j) ≢ m (s2 + j))
    → memcmp m s1 s2 n
      ≡ (if j == n then null else (if ltb (m (s1 + j)) (m (s2 + j)) then negative else positive))
unfolding memcmp
memcmp-first m s1 s2 n j h same end =
    compare_from-first n m s1 s2 0 j (omega arith) (omega arith) (λ k a b. same k b) (start end)
    ∙ ap
        (λ x.
          if j == x then null else (if ltb (m (s1 + j)) (m (s2 + j)) then negative else positive))
        {x = 0 + n} {y = n} (omega arith)
  where
    start : (j ≡ n) ⊎ (m (s1 + j) ≢ m (s2 + j)) → (j ≡ 0 + n) ⊎ (m (s1 + j) ≢ m (s2 + j))
    start (inl x) = inl (omega arith)
    start (inr x) = inr x

-- After memcpy between ranges that do not overlap, memcmp finds them equal.
pub memcmp-memcpy :
    (m : Memory) (d s n : ℕ) → (d + n ≤ s) ⊎ (s + n ≤ d) → memcmp (memcpy m d s n) d s n ≡ null
memcmp-memcpy m d s n h =
    memcmp-first (memcpy m d s n) d s n n (omega arith) equal (inl refl) ∙ rw (eq→== n n refl) refl
  where
    towards : (d + n ≤ s) ⊎ (s + n ≤ d) → (d ≤ s) ⊎ (s + n ≤ d)
    towards (inl x) = inl (omega arith)
    towards (inr x) = inr x

    outside :
        (d + n ≤ s) ⊎ (s + n ≤ d) → (k : ℕ) → k < n → (leb d (s + k) && ltb (s + k) (d + n)) ≡ false
    outside (inl x) k l = ground arith
    outside (inr x) k l = ground arith

    equal : (k : ℕ) → k < n → memcpy m d s n (d + k) ≡ memcpy m d s n (s + k)
    equal k l =
        let inside : (leb d (d + k) && ltb (d + k) (d + n)) ≡ true = ground arith in
        let kept = outside h k l in
        memcpy-copied m d s n (d + k) (towards h)
        ∙ rw (inside, kept) (ap m {x = s + (d + k - d)} {y = s + k} (omega arith))
        ∙ sym (memcpy-copied m d s n (s + k) (towards h))
