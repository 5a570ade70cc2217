-- ===== src/Circular.antt =====
-- The circular buffers of kernel/src/core/drivers/tty: `count` items from index `first` of an
-- array, going round at its end. The pipe's ring and the two rings of a terminal share these laws.
use native.Mathlib.Nat.{mod-add-mod, mod-eq_of_lt, mod-eq-sub-mod}
use alephos.Prelude.{
  ℕ, zero, suc, ◌+◌, ◌-◌, ◌%◌, ◌≤◌, ◌<◌, ◌≡◌, refl, sym, ap, ◌∙◌, ◌≢◌, List, [], ◌∷◌,
}
use alephos.Prelude.{◌++◌, arith, length, get_or, set, get_or-set_self, get_or-set_ne}
use alephos.Prelude.{Bool-cases, ltb, ltb→lt, ltb→le, inl, inr}

module _ (cap : ℕ) where
  pub contents : List ℕ → ℕ → ℕ → List ℕ
  contents buf first zero = []
  contents buf first (suc n) = get_or buf first 0 ∷ contents buf ((first + 1) % cap) n

  pub length-contents : (buf : List ℕ) (first n : ℕ) → length (contents buf first n) ≡ n
  unfolding contents
  length-contents buf first zero = refl
  length-contents buf first (suc n) = ap suc (length-contents buf ((first + 1) % cap) n)

  -- The next index, and `n` places on from there.
  around-suc : (first n : ℕ) → ((first + 1) % cap + n) % cap ≡ (first + suc n) % cap
  around-suc first n = mod-add-mod (first + 1) cap n ∙ ap (λ (t : ℕ). t % cap) (omega arith)

  -- Fewer than `cap` places on is another index.
  around-ne : (first n : ℕ) → first < cap → suc n < cap → first ≢ (first + suc n) % cap
  around-ne first n h k e = elim (Bool-cases (ltb (first + suc n) cap)) [
    | inl below ↦ omega (arith, mod-eq_of_lt (ltb→lt _ _ below))
    | inr past ↦ omega (
      arith,
      ltb→le _ _ past,
      mod-eq-sub-mod (ltb→le _ _ past),
      mod-eq_of_lt {n = first + suc n - cap} {m = cap} (omega (arith, ltb→le _ _ past)),
    )
  ]

  -- A write just past the items puts one more behind them.
  pub contents-set :
      (buf : List ℕ) (first n x : ℕ) {i : ℕ}
      → cap ≤ length buf
      → first < cap
      → n < cap
      → i ≡ (first + n) % cap
      → contents (set buf i x) first (suc n) ≡ contents buf first n ++ (x ∷ [])
  unfolding contents
  contents-set buf first zero x {i} room h k at =
      let here : i ≡ first = at ∙ (ap (λ (t : ℕ). t % cap) (omega arith) ∙ mod-eq_of_lt h) in
      rw (here, get_or-set_self buf first x 0 (omega arith))
  contents-set buf first (suc n) x {i} room h k at =
      let other : i ≢ first = λ e. around-ne first n h k (sym e ∙ at) in
      let later =
        contents-set buf ((first + 1) % cap) n x room (omega arith) (omega arith)
          (at ∙ sym (around-suc first n)) in
      rw (get_or-set_ne buf i first x 0 other) (ap (λ l. get_or buf first 0 ∷ l) later)

  -- The oldest item, and those behind it.
  pub contents-pos :
      (buf : List ℕ) (first n : ℕ)
      → 0 < n
      → contents buf first n ≡ get_or buf first 0 ∷ contents buf ((first + 1) % cap) (n - 1)
  unfolding contents
  contents-pos buf first zero h = absurd (omega arith)
  contents-pos buf first (suc n) h =
      ap (λ k. get_or buf first 0 ∷ contents buf ((first + 1) % cap) k) (omega arith)

  pub contents-zero : (buf : List ℕ) (first n : ℕ) → n ≡ 0 → contents buf first n ≡ []
  unfolding contents
  contents-zero buf first n e = ap (contents buf first) e
