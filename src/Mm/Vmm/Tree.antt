-- ===== src/Mm/Vmm/Tree.antt =====
-- The tree of page tables of kernel/src/mm/vmm.c, and one step down it.
use alephos.Prelude.{ℕ, ◌+◌, ◌*◌, ◌^◌, ◌≤◌, ◌<◌, bit_or}
use alephos.Prelude.{◌≡◌, refl, ap, ap₂, ◌≢◌, ◌⊎◌, inl, inr, true, ◌&&◌}
use alephos.Prelude.{Option, none, some, arith}
use alephos.Prelude.{◌==◌, if◌then◌else◌, Bool-cases, ==→eq, ==→ne, eq→==, ne→==}
use alephos.Bits.Disjoint.{bit_or-disjoint, bit_or-one}
use alephos.Mm.Pmm.Alloc.{IsValid, Used}
use alephos.Mm.Vmm.{Vmm, Entries, present, address, entry, put_entry, clear_table, descend}

-- What an entry made of a page's address and of flags says.
pub entry-says :
    (page flags : ℕ)
    → flags < 4096
    → (present (entry (page * 4096) flags) ≡ true)
      × (address (entry (page * 4096) flags) ≡ page * 4096)
unfolding entry
entry-says page flags h =
    let word : bit_or (page * 2 ^ 12) flags ≡ page * 2 ^ 12 + flags =
      bit_or-disjoint 12 page flags (omega arith) in
    (
      ground (arith, bit_or-one (bit_or (page * 4096) flags)),
      omega (arith, bit_or-one (bit_or (page * 4096) flags), word),
    )

-- Each table has its level, the root 4; a present entry above level 1 leads one level down, and
-- the page of every table is marked used.
pub record IsTree (level : ℕ → ℕ) (v : Vmm) : Type 0 where
  pub valid : IsValid v.pmm
  pub root : level v.current_pml4 ≡ 4
  pub child :
      (t i : ℕ)
      → 1 < level t
      → present (v.entries t i) ≡ true
      → level (address (v.entries t i)) + 1 ≡ level t
  pub marked : (page : ℕ) → level (page * 4096) ≢ 0 → Used v.pmm page

-- Nothing is left from the 64th page on.
abbrev pub Exhausted : Vmm → Type 0
Exhausted v = (q : ℕ) → 64 ≤ q → q < v.pmm.total_pages → Used v.pmm q

-- A table under the entry `i` of `t`, the other entries of the tables kept.
pub record Step (level : ℕ → ℕ) (v : Vmm) (t i c : ℕ) (v' : Vmm) : Type 0 where
  pub level' : ℕ → ℕ
  pub tree : IsTree level' v'
  pub grows : (u : ℕ) → level u ≢ 0 → level' u ≡ level u
  pub found : descend v'.entries t i ≡ some c
  pub below : level' c + 1 ≡ level t
  pub kept : (u j : ℕ) → level u ≢ 0 → u ≢ t → v'.entries u j ≡ v.entries u j
  pub same_root : v'.current_pml4 ≡ v.current_pml4

abbrev pub Stepped : (ℕ → ℕ) → Vmm → ℕ → ℕ → Option ℕ × Vmm → Type 0
Stepped level v t i (none, v') = IsTree level v' × Exhausted v'
Stepped level v t i (some c, v') = Step level v t i c v'

pub put_entry-same : (m : Entries) (t i e : ℕ) → put_entry m t i e t i ≡ e
unfolding put_entry
put_entry-same m t i e = ap₂ (λ x y. if x && y then e else m t i) (eq→== t t refl) (eq→== i i refl)

pub put_entry-other : (m : Entries) (t i e u j : ℕ) → u ≢ t → put_entry m t i e u j ≡ m u j
unfolding put_entry
put_entry-other m t i e u j n = ap (λ x. if x && (j == i) then e else m u j) (ne→== u t n)

-- An entry is the new one or as before.
pub put_entry-cases :
    (m : Entries) (t i e u j : ℕ)
    → ((u ≡ t) × (j ≡ i) × (put_entry m t i e u j ≡ e)) ⊎ (put_entry m t i e u j ≡ m u j)
unfolding put_entry
put_entry-cases m t i e u j = elim (Bool-cases ((u == t) && (j == i))) [
  | inl x ↦ inl (ground (arith, x), ground (arith, x), ap (λ b. if b then e else m u j) x)
  | inr x ↦ inr (ap (λ b. if b then e else m u j) x)
]

pub clear_table-cases :
    (m : Entries) (t u j : ℕ)
    → ((u ≡ t) × (clear_table m t u j ≡ 0)) ⊎ ((u ≢ t) × (clear_table m t u j ≡ m u j))
unfolding clear_table
clear_table-cases m t u j = elim (Bool-cases (u == t)) [
  | inl x ↦ inl (==→eq u t x, ap (λ b. if b then 0 else m u j) x)
  | inr x ↦ inr (==→ne u t x, ap (λ b. if b then 0 else m u j) x)
]

pub clear_table-other : (m : Entries) (t u j : ℕ) → u ≢ t → clear_table m t u j ≡ m u j
unfolding clear_table
clear_table-other m t u j n = ap (λ b. if b then 0 else m u j) (ne→== u t n)

pub descend-present :
    (m : Entries) (t i : ℕ) → present (m t i) ≡ true → descend m t i ≡ some (address (m t i))
unfolding descend
descend-present m t i e = ap (λ b. if b then some (address (m t i)) else none) e
