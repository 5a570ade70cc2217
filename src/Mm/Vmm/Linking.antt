-- ===== src/Mm/Vmm/Linking.antt =====
-- A new table in the tree of kernel/src/mm/vmm.c.
use alephos.Prelude.{ℕ, ◌+◌, ◌-◌, ◌*◌, ◌<◌}
use alephos.Prelude.{◌≡◌, refl, sym, ap, ap₂, ◌∙◌, subst, ◌≢◌, inl, inr, true}
use alephos.Prelude.{Option, none, some, arith}
use alephos.Prelude.{◌==◌, if◌then◌else◌, Bool-cases, ==→eq, ==→ne, eq→==, ne→==}
use mathlib.Core.Bool.{true≢false}
use alephos.Mm.Pmm.{Pmm, alloc_page}
use alephos.Mm.Pmm.Alloc.{Used, Free, Taken, Allocated, alloc_page-Allocated}
use alephos.Mm.Vmm.{
  Vmm, Entries, present, address, entry, put_entry, clear_table, created, create_page_table, link,
  get_or_create, descend,
}
use alephos.Mm.Vmm.Tree.{
  IsTree, Exhausted, Step, Stepped, entry-says, put_entry-same, put_entry-other, put_entry-cases,
  clear_table-cases, clear_table-other, descend-present,
}

-- The levels with a new table
abbrev with_level : (ℕ → ℕ) → ℕ → ℕ → ℕ → ℕ
with_level level p k u = if u == p then k else level u

with_level-same : (level : ℕ → ℕ) (p k : ℕ) → with_level level p k p ≡ k
with_level-same level p k = ap (λ b. if b then k else level p) (eq→== p p refl)

with_level-other : (level : ℕ → ℕ) (p k u : ℕ) → u ≢ p → with_level level p k u ≡ level u
with_level-other level p k u n = ap (λ b. if b then k else level u) (ne→== u p n)

-- The state after a new table has been linked
abbrev linked : Vmm → ℕ → ℕ → ℕ → ℕ → Pmm → Vmm
linked v t i flags p s = record v {
  pmm = s;
  entries = put_entry (clear_table v.entries p) t i (entry p flags);
}

-- A page that is free is no table.
Free-level :
    (level : ℕ → ℕ) (v : Vmm) (page : ℕ)
    → IsTree level v
    → Free v.pmm page
    → level (page * 4096) ≡ 0
Free-level level v page r free = elim (Bool-cases (level (page * 4096) == 0)) [
  | inl e ↦ ==→eq (level (page * 4096)) 0 e
  | inr e ↦ absurd (true≢false (sym (r.marked page (==→ne (level (page * 4096)) 0 e)) ∙ free))
]

-- A table and its new one in a state
module _ (level : ℕ → ℕ) (v : Vmm) (t i flags page : ℕ) (s : Pmm) (r : IsTree level v)
    (small : flags < 4096) (deep : 1 < level t) (g : Taken v.pmm page s) where
  fresh : level (page * 4096) ≡ 0
  fresh = Free-level level v page r g.was_free

  other : (u : ℕ) → level u ≢ 0 → u ≢ page * 4096
  other u n e = n (ap level e ∙ fresh)

  grows : (u : ℕ) → level u ≢ 0 → with_level level (page * 4096) (level t - 1) u ≡ level u
  grows u n = with_level-other level (page * 4096) (level t - 1) u (other u n)

  linked-child :
      (u j : ℕ)
      → 1 < with_level level (page * 4096) (level t - 1) u
      → present ((linked v t i flags (page * 4096) s).entries u j) ≡ true
      → with_level level
            (page * 4096)
            (level t - 1)
            (address ((linked v t i flags (page * 4096) s).entries u j))
          + 1
        ≡ with_level level (page * 4096) (level t - 1) u
  linked-child u j high here =
      let p : ℕ = page * 4096 in
      let level' : ℕ → ℕ = with_level level p (level t - 1) in
      let m : Entries = (linked v t i flags p s).entries in
      let says : (present (entry p flags) ≡ true) × (address (entry p flags) ≡ p) =
        entry-says page flags small in
      elim (put_entry-cases (clear_table v.entries p) t i (entry p flags) u j) [
        | inl (ut, ji, q) ↦
            let low : level' (address (m u j)) ≡ level t - 1 =
              ap level' (ap address q ∙ says.1) ∙ with_level-same level p (level t - 1) in
            let up : level' u ≡ level t = ap level' ut ∙ grows t (λ z. omega (arith, z, deep)) in
            omega (arith, low, up, deep)
        | inr q ↦ elim (clear_table-cases v.entries p u j) [
          | inl (up, z) ↦ absurd (true≢false (sym here ∙ ap present (q ∙ z)))
          | inr (n, w) ↦
              let up : level' u ≡ level u = with_level-other level p (level t - 1) u n in
              let old : level (address (v.entries u j)) + 1 ≡ level u =
                r.child u j (omega (arith, high, up)) (ap present (sym (q ∙ w)) ∙ here) in
              let same : level' (address (m u j)) ≡ level (address (v.entries u j)) =
                ap (λ e. level' (address e)) (q ∙ w)
                ∙ grows (address (v.entries u j)) (λ z. omega (arith, z, old, high, up)) in
              omega (arith, same, old, up)
        ]
      ]

  linked-marked : (q : ℕ) → with_level level (page * 4096) (level t - 1) (q * 4096) ≢ 0 → Used s q
  linked-marked q n = elim (Bool-cases (q == page)) [
    | inl e ↦ subst (λ x. Used s x) (sym (==→eq q page e)) g.now_used
    | inr e ↦
        let apart : q * 4096 ≢ page * 4096 = λ x. ==→ne q page e (omega (arith, x)) in
        g.others q (==→ne q page e)
        ∙ r.marked q
            (λ z. n (with_level-other level (page * 4096) (level t - 1) (q * 4096) apart ∙ z))
  ]

  link-Step : Step level v t i (page * 4096) (linked v t i flags (page * 4096) s)
  unfolding descend
  link-Step =
      let p : ℕ = page * 4096 in
      let says : (present (entry p flags) ≡ true) × (address (entry p flags) ≡ p) =
        entry-says page flags small in
      record {
        level' = with_level level p (level t - 1);
        tree = record {
          valid = g.valid;
          root = grows v.current_pml4 (λ z. omega (arith, z, r.root)) ∙ r.root;
          child = linked-child;
          marked = linked-marked;
        };
        grows = grows;
        found =
            ap (λ e. if present e then some (address e) else none)
              (put_entry-same (clear_table v.entries p) t i (entry p flags))
            ∙ ap₂ (λ b a. if b then some a else none) says.0 says.1;
        below = omega (arith, with_level-same level p (level t - 1), deep);
        kept = λ u j n apart.
            put_entry-other (clear_table v.entries p) t i (entry p flags) u j apart
            ∙ clear_table-other v.entries p u j (other u n);
        same_root = refl;
      }

-- The table that an entry leads to, or a new one; none only if every page is in use.
pub get_or_create-Stepped :
    (level : ℕ → ℕ) (v : Vmm) (t i flags : ℕ)
    → IsTree level v
    → flags < 4096
    → 1 < level t
    → Stepped level v t i (get_or_create t i flags v)
unfolding get_or_create
get_or_create-Stepped level v t i flags r small deep = elim (Bool-cases (present (v.entries t i))) [
  | inl e ↦
      subst
        (λ b.
          Stepped level v t i (
            if b
            then (some (address (v.entries t i)), v)
            else link t i flags (create_page_table v)))
        (sym e)
        record {
          level' = level;
          tree = r;
          grows = λ u n. refl;
          found = descend-present v.entries t i e;
          below = r.child t i deep e;
          kept = λ u j n apart. refl;
          same_root = refl;
        }
  | inr e ↦
      subst
        (λ b.
          Stepped level v t i (
            if b
            then (some (address (v.entries t i)), v)
            else link t i flags (create_page_table v)))
        (sym e) (made (alloc_page v.pmm) (alloc_page-Allocated v.pmm r.valid))
]
  where
    made :
        (o : Option ℕ × Pmm)
        → Allocated v.pmm o
        → Stepped level v t i (link t i flags (created o v))
    made (none, s) a =
        subst (λ x. IsTree level (record v { pmm = x }) × Exhausted (record v { pmm = x }))
          (sym a.0) (r, a.1)
    made (some p, s) (page, at, g) =
        subst (λ x. Step level v t i x (linked v t i flags x s)) (sym at)
          (link-Step level v t i flags page s r small deep g)
