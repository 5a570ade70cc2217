-- ===== src/Mm/Vmm/Mapping.antt =====
-- vmm_map_page, vmm_unmap_page and vmm_get_phys_addr of kernel/src/mm/vmm.c one after another.
use alephos.Prelude.{ℕ, ◌+◌, ◌<◌}
use alephos.Prelude.{◌≡◌, sym, ap, ◌∙◌, subst, ◌≢◌, Bool, true, false}
use alephos.Prelude.{Option, none, some, arith}
use alephos.Prelude.{if◌then◌else◌}
use alephos.Prelude.{◌>>=◌}
use alephos.Mm.Vmm.{
  Vmm, Entries, present, address, entry, put_entry, get_or_create, descend, unless_null, pml4_index,
  pdp_index, pd_index, pt_index, map_page, find_table,
}
use alephos.Mm.Vmm.Tree.{IsTree, Exhausted, Step, Stepped, put_entry-same, put_entry-other}
use alephos.Mm.Vmm.Linking.{get_or_create-Stepped}

-- A tree of tables, with some levels
pub record Rooted (v : Vmm) : Type 0 where
  pub level : ℕ → ℕ
  pub tree : IsTree level v

-- The walk for an address ends at the table of pages `pt`, at level 1.
pub record Reaches (virt pt : ℕ) (v : Vmm) : Type 0 where
  pub level : ℕ → ℕ
  pub tree : IsTree level v
  pub pdp : ℕ
  pub pd : ℕ
  pub high : level pdp ≡ 3
  pub middle : level pd ≡ 2
  pub low : level pt ≡ 1
  pub to_pdp : descend v.entries v.current_pml4 (pml4_index virt) ≡ some pdp
  pub to_pd : descend v.entries pdp (pdp_index virt) ≡ some pd
  pub to_pt : descend v.entries pd (pd_index virt) ≡ some pt

-- An entry of a table of pages changes.
abbrev pub with_entry : Vmm → ℕ → ℕ → ℕ → Vmm
with_entry v t i e = record v { entries = put_entry v.entries t i e }

with_entry-IsTree :
    (level : ℕ → ℕ) (v : Vmm) (pt i e : ℕ)
    → IsTree level v
    → level pt ≡ 1
    → IsTree level (with_entry v pt i e)
with_entry-IsTree level v pt i e r low = record {
  valid = r.valid;
  root = r.root;
  child = λ t j high here.
      let apart : t ≢ pt = λ x. omega (arith, high, low, ap level x) in
      let same : put_entry v.entries pt i e t j ≡ v.entries t j =
        put_entry-other v.entries pt i e t j apart in
      ap (λ x. level (address x) + 1) same ∙ r.child t j high (ap present (sym same) ∙ here);
  marked = r.marked;
}

-- The walk through three tables, its entries given.
pub walk-eq :
    (virt : ℕ) (v : Vmm) (pdp pd pt : ℕ)
    → descend v.entries v.current_pml4 (pml4_index virt) ≡ some pdp
    → descend v.entries pdp (pdp_index virt) ≡ some pd
    → descend v.entries pd (pd_index virt) ≡ some pt
    → find_table virt v ≡ some pt
unfolding find_table
walk-eq virt v pdp pd pt a b c =
    ap
      (λ o. o >>= λ t.
        (descend v.entries t (pdp_index virt) >>= λ u. descend v.entries u (pd_index virt)))
      a
    ∙ ap (λ o. o >>= λ u. descend v.entries u (pd_index virt)) b
    ∙ c

descend-same :
    (m m' : Entries) (t i c : ℕ) → m' t i ≡ m t i → descend m t i ≡ some c → descend m' t i ≡ some c
unfolding descend
descend-same m m' t i c e d = ap (λ x. if present x then some (address x) else none) e ∙ d

-- What the second and the third step leave of the first.
module _ (virt pdp pd pt : ℕ) (v v1 v2 v3 : Vmm) (level : ℕ → ℕ) (r : IsTree level v)
    (a : Step level v v.current_pml4 (pml4_index virt) pdp v1)
    (b : Step a.level' v1 pdp (pdp_index virt) pd v2)
    (c : Step b.level' v2 pd (pd_index virt) pt v3) where
  steps-Reaches : Reaches virt pt v3
  steps-Reaches =
      let root : ℕ = v.current_pml4 in
      let a_root : a.level' root ≡ 4 = a.grows root (λ z. omega (arith, z, r.root)) ∙ r.root in
      let a_pdp : a.level' pdp ≡ 3 = omega (arith, a.below, r.root) in
      let b_root : b.level' root ≡ 4 = b.grows root (λ z. omega (arith, z, a_root)) ∙ a_root in
      let b_pdp : b.level' pdp ≡ 3 = b.grows pdp (λ z. omega (arith, z, a_pdp)) ∙ a_pdp in
      let b_pd : b.level' pd ≡ 2 = omega (arith, b.below, a_pdp) in
      let root2 : v2.entries root (pml4_index virt) ≡ v1.entries root (pml4_index virt) =
        b.kept root (pml4_index virt) (λ z. omega (arith, z, a_root))
          (λ z. omega (arith, ap a.level' z, a_root, a_pdp)) in
      let root3 : v3.entries root (pml4_index virt) ≡ v2.entries root (pml4_index virt) =
        c.kept root (pml4_index virt) (λ z. omega (arith, z, b_root))
          (λ z. omega (arith, ap b.level' z, b_root, b_pd)) in
      let pdp3 : v3.entries pdp (pdp_index virt) ≡ v2.entries pdp (pdp_index virt) =
        c.kept pdp (pdp_index virt) (λ z. omega (arith, z, b_pdp))
          (λ z. omega (arith, ap b.level' z, b_pdp, b_pd)) in
      record {
        level = c.level';
        tree = c.tree;
        pdp = pdp;
        pd = pd;
        high = c.grows pdp (λ z. omega (arith, z, b_pdp)) ∙ b_pdp;
        middle = c.grows pd (λ z. omega (arith, z, b_pd)) ∙ b_pd;
        low = omega (arith, c.below, b_pd);
        to_pdp =
            subst (λ x. descend v3.entries x (pml4_index virt) ≡ some pdp)
              (sym (c.same_root ∙ b.same_root ∙ a.same_root))
              (descend-same v1.entries v3.entries root (pml4_index virt) pdp (root3 ∙ root2)
                a.found);
        to_pd = descend-same v2.entries v3.entries pdp (pdp_index virt) pd pdp3 b.found;
        to_pt = c.found;
      }

-- How `vmm_map_page` ends: no page was left, or the address reaches its new entry.
pub record Maps (virt phys flags : ℕ) (v' : Vmm) : Type 0 where
  pub pt : ℕ
  pub reaches : Reaches virt pt v'
  pub set : v'.entries pt (pt_index virt) ≡ entry phys flags

abbrev pub Mapped : (virt phys flags : ℕ) → Bool × Vmm → Type 0
Mapped virt phys flags (false, v') = Rooted v' × Exhausted v'
Mapped virt phys flags (true, v') = Maps virt phys flags v'

-- The walk is kept by a change in a table of pages.
pub with_entry-Reaches :
    (virt pt e : ℕ) (v : Vmm)
    → Reaches virt pt v
    → Reaches virt pt (with_entry v pt (pt_index virt) e)
with_entry-Reaches virt pt e v r =
    let kept : (t i k : ℕ)
        → r.level t ≡ k
        → 1 < k
        → put_entry v.entries pt (pt_index virt) e t i ≡ v.entries t i =
      λ t i k at high.
        put_entry-other v.entries pt (pt_index virt) e t i
          (λ z. omega (arith, ap r.level z, at, high, r.low)) in
    record {
      level = r.level;
      tree = with_entry-IsTree r.level v pt (pt_index virt) e r.tree r.low;
      pdp = r.pdp;
      pd = r.pd;
      high = r.high;
      middle = r.middle;
      low = r.low;
      to_pdp =
          descend-same v.entries _ v.current_pml4 (pml4_index virt) r.pdp
            (kept v.current_pml4 (pml4_index virt) 4 r.tree.root (omega arith)) r.to_pdp;
      to_pd =
          descend-same v.entries _ r.pdp (pdp_index virt) r.pd
            (kept r.pdp (pdp_index virt) 3 r.high (omega arith)) r.to_pd;
      to_pt =
          descend-same v.entries _ r.pd (pd_index virt) pt
            (kept r.pd (pd_index virt) 2 r.middle (omega arith)) r.to_pt;
    }

module _ (virt phys flags : ℕ) (v : Vmm) (level : ℕ → ℕ) (r : IsTree level v)
    (small : flags < 4096) where
  third :
      (pdp pd : ℕ) (v1 v2 : Vmm) (a : Step level v v.current_pml4 (pml4_index virt) pdp v1)
      (b : Step a.level' v1 pdp (pdp_index virt) pd v2) (o : Option ℕ × Vmm)
      → Stepped b.level' v2 pd (pd_index virt) o
      → Mapped virt phys flags
          (unless_null o (λ pt v3. (true, with_entry v3 pt (pt_index virt) (entry phys flags))))
  unfolding unless_null
  third pdp pd v1 v2 a b (none, v3) (tree, full) = (record { level = b.level'; tree = tree }, full)
  third pdp pd v1 v2 a b (some pt, v3) c = record {
    pt = pt;
    reaches =
        with_entry-Reaches virt pt (entry phys flags) v3
          (steps-Reaches virt pdp pd pt v v1 v2 v3 level r a b c);
    set = put_entry-same v3.entries pt (pt_index virt) (entry phys flags);
  }

  second :
      (pdp : ℕ) (v1 : Vmm) (a : Step level v v.current_pml4 (pml4_index virt) pdp v1)
      (o : Option ℕ × Vmm)
      → Stepped a.level' v1 pdp (pdp_index virt) o
      → Mapped virt phys flags (
          unless_null o (λ pd v2.
            unless_null
              (get_or_create pd (pd_index virt) flags v2)
              (λ pt v3. (true, with_entry v3 pt (pt_index virt) (entry phys flags)))))
  unfolding unless_null
  second pdp v1 a (none, v2) (tree, full) = (record { level = a.level'; tree = tree }, full)
  second pdp v1 a (some pd, v2) b =
      third pdp pd v1 v2 a b (get_or_create pd (pd_index virt) flags v2) (
        get_or_create-Stepped b.level' v2 pd (pd_index virt) flags b.tree small
          (omega (arith, a.below, b.below, r.root)))

  first :
      (o : Option ℕ × Vmm)
      → Stepped level v v.current_pml4 (pml4_index virt) o
      → Mapped virt phys flags (
          unless_null o (λ pdp v1.
            unless_null (get_or_create pdp (pdp_index virt) flags v1) (λ pd v2.
              unless_null
                (get_or_create pd (pd_index virt) flags v2)
                (λ pt v3. (true, with_entry v3 pt (pt_index virt) (entry phys flags))))))
  unfolding unless_null
  first (none, v1) (tree, full) = (record { level = level; tree = tree }, full)
  first (some pdp, v1) a = second pdp v1 a (get_or_create pdp (pdp_index virt) flags v1) (
      get_or_create-Stepped a.level' v1 pdp (pdp_index virt) flags a.tree small
        (omega (arith, a.below, r.root)))

  pub map_page-Mapped : Mapped virt phys flags (map_page virt phys flags v)
  unfolding map_page
  map_page-Mapped = first (get_or_create v.current_pml4 (pml4_index virt) flags v) (
      get_or_create-Stepped level v v.current_pml4 (pml4_index virt) flags r small
        (omega (arith, r.root)))
