-- ===== src/Net/Dns/Walks.antt =====
-- The walk of dns_parse_response of kernel/src/net/dns.c along the names and the records.
use alephos.Prelude.{ℕ, zero, suc, ◌+◌, ◌≤◌, ◌<◌, bit_and}
use alephos.Prelude.{◌≡◌, sym, subst, ◌⊎◌, inl, inr, Bool, true, false, not, ◌&&◌, ◌||◌}
use alephos.Prelude.{Option, none, some, arith}
use alephos.Prelude.{ltb, leb, ◌==◌, if◌then◌else◌, Bool-cases}
use alephos.Utils.Mem.{Memory}
use alephos.Core.Elf.{read_le}
use alephos.Core.Process.Removal.{Yields}
use mathlib.Core.Bool.{true≢false}
use alephos.Mm.Heap.Freeing.{Yields-bind, Yields-map}
use alephos.Net.Dns.{htons, skip_name, skip_questions, find_address}

-- The name at one offset is taken to end at another: at the end of the response, at a zero byte,
-- which is not skipped, or behind the two bytes of a pointer, with labels before.
pub data NameEnds (r : Memory) (end : ℕ) : ℕ → ℕ → Type 0 where
  past : {cur : ℕ} → end ≤ cur → NameEnds r end cur cur
  zero_byte : {cur : ℕ} → cur < end → r cur ≡ 0 → NameEnds r end cur cur
  pointer :
      {cur : ℕ}
      → cur < end
      → (r cur == 0) ≡ false
      → (bit_and (r cur) 0xC0 == 0) ≡ false
      → NameEnds r end cur (cur + 2)
  label :
      {cur at : ℕ}
      → cur < end
      → (r cur == 0) ≡ false
      → (bit_and (r cur) 0xC0 == 0) ≡ true
      → NameEnds r end (cur + r cur + 1) at
      → NameEnds r end cur at

-- Where so many questions end, each a name and four bytes, or that one is cut.
pub data Questions (r : Memory) (end : ℕ) : ℕ → ℕ → Option ℕ → Type 0 where
  asked : {cur : ℕ} → Questions r end 0 cur (some cur)
  cut :
      {n cur : ℕ} (at : ℕ) → NameEnds r end cur at → end < at + 4 → Questions r end (suc n) cur none
  question :
      {n cur : ℕ} {o : Option ℕ} (at : ℕ)
      → NameEnds r end cur at
      → at + 4 ≤ end
      → Questions r end n (at + 4) o
      → Questions r end (suc n) cur o

-- The type and the length of the record whose name ends at `at`
abbrev record_type : Memory → ℕ → ℕ
record_type r at = htons (read_le r at 2)

abbrev record_length : Memory → ℕ → ℕ
record_length r at = htons (read_le r (at + 8) 2)

-- The walk along so many records: to the first of type A with four bytes, or to none.
pub data Walks (r : Memory) (end : ℕ) : ℕ → ℕ → Option ℕ → Type 0 where
  runs_out : {cur : ℕ} → Walks r end 0 cur none
  cut : {n cur : ℕ} (at : ℕ) → NameEnds r end cur at → end < at + 10 → Walks r end (suc n) cur none
  address :
      {n cur : ℕ} (at : ℕ)
      → NameEnds r end cur at
      → at + 10 ≤ end
      → record_type r at ≡ 1
      → record_length r at ≡ 4
      → Walks r end (suc n) cur (some (read_le r (at + 10) 4))
  further :
      {n cur : ℕ} {o : Option ℕ} (at : ℕ)
      → NameEnds r end cur at
      → at + 10 ≤ end
      → ¬ (record_type r at ≡ 1) ⊎ ¬ (record_length r at ≡ 4)
      → Walks r end n (at + 10 + record_length r at) o
      → Walks r end (suc n) cur o

-- One round of the loop over a name.
abbrev round : Bool → Bool → ℕ → Option ℕ → Option ℕ
round stops is_label cur rest =
    if stops then some cur else (if is_label then rest else some (cur + 2))

settle :
    (r : Memory) (end cur : ℕ) (rest : Option ℕ)
    → (cur < end → Yields (NameEnds r end (cur + r cur + 1)) rest)
    → Yields
        (NameEnds r end cur)
        (round (not (ltb cur end) || (r cur == 0)) (bit_and (r cur) 0xC0 == 0) cur rest)
settle r end cur rest h = elim (Bool-cases (ltb cur end)) [
  | inr over ↦
      subst
        (λ b.
          Yields (NameEnds r end cur)
            (round (not b || (r cur == 0)) (bit_and (r cur) 0xC0 == 0) cur rest))
        (sym over) (past (ground (arith, over)))
  | inl inside ↦
      let low : cur < end = ground (arith, inside) in
      subst
        (λ b.
          Yields (NameEnds r end cur)
            (round (not b || (r cur == 0)) (bit_and (r cur) 0xC0 == 0) cur rest))
        (sym inside)
        (elim (Bool-cases (r cur == 0)) [
          | inl nul ↦
              subst
                (λ b. Yields (NameEnds r end cur) (round b (bit_and (r cur) 0xC0 == 0) cur rest))
                (sym nul) (zero_byte low (ground (arith, nul)))
          | inr some_byte ↦
              subst
                (λ b. Yields (NameEnds r end cur) (round b (bit_and (r cur) 0xC0 == 0) cur rest))
                (sym some_byte)
                (elim (Bool-cases (bit_and (r cur) 0xC0 == 0)) [
                  | inl plain ↦
                      subst (λ b. Yields (NameEnds r end cur) (round false b cur rest)) (sym plain)
                        (Yields-map (NameEnds r end (cur + r cur + 1)) (NameEnds r end cur) rest
                          (λ at e. label low some_byte plain e) (h low))
                  | inr points ↦
                      subst (λ b. Yields (NameEnds r end cur) (round false b cur rest)) (sym points)
                        (pointer low some_byte points)
                ])
        ])
]

skip_name-NameEnds :
    (fuel : ℕ) (r : Memory) (cur end : ℕ)
    → end ≤ cur + fuel
    → Yields (NameEnds r end cur) (skip_name (suc fuel) r cur end)
unfolding skip_name
skip_name-NameEnds zero r cur end h = settle r end cur none (λ low. absurd (omega arith))
skip_name-NameEnds (suc fuel) r cur end h =
    settle r end cur (skip_name (suc fuel) r (cur + r cur + 1) end)
      (λ low. skip_name-NameEnds fuel r (cur + r cur + 1) end (omega arith))

-- The questions end too.
pub skip_questions-Questions :
    (len n : ℕ) (r : Memory) (cur : ℕ)
    → Yields (Questions r len n cur) (skip_questions (suc len) n r cur len)
unfolding skip_questions
skip_questions-Questions len zero r cur = asked
skip_questions-Questions len (suc n) r cur =
    Yields-bind (NameEnds r len cur) (Questions r len (suc n) cur) (skip_name (suc len) r cur len)
      (λ at.
        if leb len at || ltb len (at + 4)
        then some none
        else skip_questions (suc len) n r (at + 4) len)
      (skip_name-NameEnds len r cur len (omega arith))
      (λ at name.
        asked_at at name (skip_questions (suc len) n r (at + 4) len)
          (skip_questions-Questions len n r (at + 4)))
  where
    asked_at :
        (at : ℕ)
        → NameEnds r len cur at
        → (rest : Option (Option ℕ)) → Yields (Questions r len n (at + 4)) rest
        → Yields
            (Questions r len (suc n) cur)
            (if leb len at || ltb len (at + 4) then some none else rest)
    asked_at at name rest y = elim (Bool-cases (leb len at || ltb len (at + 4))) [
      | inl e ↦
          subst (λ b. Yields (Questions r len (suc n) cur) (if b then some none else rest)) (sym e)
            (Questions.cut at name (ground (arith, e)))
      | inr e ↦
          subst (λ b. Yields (Questions r len (suc n) cur) (if b then some none else rest)) (sym e)
            (Yields-map (Questions r len n (at + 4)) (Questions r len (suc n) cur) rest
              (λ q w. question at name (ground (arith, e)) w) y)
    ]

-- One round of the loop over the answers.
abbrev visit : Memory → ℕ → Bool → Bool → ℕ → Option (Option ℕ) → Option (Option ℕ)
visit r len ends found at rest =
    if ends then some none else (if found then some (some (read_le r (at + 10) 4)) else rest)

pub find_address-Walks :
    (len n : ℕ) (r : Memory) (cur : ℕ)
    → Yields (Walks r len n cur) (find_address (suc len) n r cur len)
unfolding find_address
find_address-Walks len zero r cur = runs_out
find_address-Walks len (suc n) r cur =
    Yields-bind (NameEnds r len cur) (Walks r len (suc n) cur) (skip_name (suc len) r cur len)
      (λ at.
        visit r len (leb len at || ltb len (at + 10))
          ((record_type r at == 1) && (record_length r at == 4)) at
          (find_address (suc len) n r (at + 10 + record_length r at) len))
      (skip_name-NameEnds len r cur len (omega arith))
      (λ at name.
        walked_at at name (find_address (suc len) n r (at + 10 + record_length r at) len)
          (find_address-Walks len n r (at + 10 + record_length r at)))
  where
    walked_at :
        (at : ℕ)
        → NameEnds r len cur at
        → (rest : Option (Option ℕ)) → Yields (Walks r len n (at + 10 + record_length r at)) rest
        → Yields (Walks r len (suc n) cur) (
            visit r len
              (leb len at || ltb len (at + 10))
              ((record_type r at == 1) && (record_length r at == 4))
              at
              rest)
    walked_at at name rest y =
        let found : Bool = (record_type r at == 1) && (record_length r at == 4) in
        elim (Bool-cases (leb len at || ltb len (at + 10))) [
          | inl e ↦
              subst (λ b. Yields (Walks r len (suc n) cur) (visit r len b found at rest)) (sym e)
                (Walks.cut at name (ground (arith, e)))
          | inr e ↦
              subst (λ b. Yields (Walks r len (suc n) cur) (visit r len b found at rest)) (sym e)
                (elim (Bool-cases found) [
                  | inl f ↦
                      subst (λ b. Yields (Walks r len (suc n) cur) (visit r len false b at rest))
                        (sym f)
                        (address at name (ground (arith, e)) (ground (arith, f))
                          (ground (arith, f)))
                  | inr f ↦
                      subst (λ b. Yields (Walks r len (suc n) cur) (visit r len false b at rest))
                        (sym f)
                        (Yields-map (Walks r len n (at + 10 + record_length r at))
                          (Walks r len (suc n) cur) rest
                          (λ q w. further at name (ground (arith, e)) (other f) w) y)
                ])
        ]
      where
        other :
            ((record_type r at == 1) && (record_length r at == 4)) ≡ false
            → ¬ (record_type r at ≡ 1) ⊎ ¬ (record_length r at ≡ 4)
        other f = elim (Bool-cases (record_type r at == 1)) [
          | inl t ↦ inr (λ l. true≢false (ground (arith, f, t, l)))
          | inr t ↦ inl (λ l. true≢false (ground (arith, t, l)))
        ]
