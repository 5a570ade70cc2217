-- ===== src/Mm/Vmm/Translating.antt =====
-- What vmm_get_phys_addr of kernel/src/mm/vmm.c says after vmm_map_page and after vmm_unmap_page.
use alephos.Prelude.{ℕ, ◌+◌, ◌*◌, ◌/◌, ◌%◌, ◌<◌, bit_or}
use alephos.Prelude.{◌≡◌, sym, ap, ap₂, ◌∙◌, subst, Bool, true, false}
use alephos.Prelude.{Option, none, some, arith}
use alephos.Prelude.{if◌then◌else◌}
use alephos.Bits.Disjoint.{bit_or-disjoint}
use alephos.Mm.Vmm.{
  Vmm, present, address, entry, pt_index, map_page, unmap_page, clear_entry, find_table,
  get_phys_addr,
}
use alephos.Mm.Vmm.Tree.{Exhausted, entry-says, put_entry-same}
use alephos.Mm.Vmm.Mapping.{
  Rooted, Reaches, Maps, Mapped, with_entry, with_entry-Reaches, walk-eq, map_page-Mapped,
}

reached : (virt pt : ℕ) (v : Vmm) → Reaches virt pt v → find_table virt v ≡ some pt
reached virt pt v r = walk-eq virt v r.pdp r.pd pt r.to_pdp r.to_pd r.to_pt

-- What an entry of a table of pages translates to.
abbrev translated : ℕ → ℕ → ℕ
translated virt e = if present e then bit_or (address e) (virt % 4096) else 0

get_phys_addr-Reaches :
    (virt pt : ℕ) (v : Vmm)
    → Reaches virt pt v
    → get_phys_addr virt v ≡ translated virt (v.entries pt (pt_index virt))
unfolding get_phys_addr
get_phys_addr-Reaches virt pt v r =
    ap
      (λ (o : Option ℕ).
        let x : ℕ = elim o [ none ↦ 0 | some t ↦ translated virt (v.entries t (pt_index virt)) ] in
        x)
      (reached virt pt v r)

clear_entry-present :
    (virt pt : ℕ) (v : Vmm)
    → present (v.entries pt (pt_index virt)) ≡ true
    → clear_entry virt (some pt) v ≡ (true, with_entry v pt (pt_index virt) 0)
unfolding clear_entry
clear_entry-present virt pt v e =
    ap (λ b. if b then (true, with_entry v pt (pt_index virt) 0) else (false, v)) e

unmap_page-Reaches :
    (virt pt : ℕ) (v : Vmm)
    → Reaches virt pt v
    → present (v.entries pt (pt_index virt)) ≡ true
    → unmap_page virt v ≡ (true, with_entry v pt (pt_index virt) 0)
unfolding unmap_page
unmap_page-Reaches virt pt v r e =
    ap (λ o. clear_entry virt o v) (reached virt pt v r) ∙ clear_entry-present virt pt v e

-- What `vmm_map_page` and then `vmm_unmap_page` leave for an address.
abbrev pub Translates : ℕ → ℕ → Bool × Vmm → Type 0
Translates virt phys (false, v') = Rooted v' × Exhausted v'
Translates virt phys (true, v') =
    Rooted v'
    × (get_phys_addr virt v' ≡ phys + virt % 4096)
    × ((unmap_page virt v').0 ≡ true)
    × Rooted (unmap_page virt v').1
    × (get_phys_addr virt (unmap_page virt v').1 ≡ 0)

Maps-Translates :
    (virt phys flags : ℕ) (v' : Vmm)
    → flags < 4096
    → phys % 4096 ≡ 0
    → Maps virt phys flags v'
    → Translates virt phys (true, v')
Maps-Translates virt phys flags v' small aligned k =
    let page : ℕ = phys / 4096 in
    let whole : phys ≡ page * 4096 = omega (arith, aligned) in
    let says : (present (entry (page * 4096) flags) ≡ true)
        × (address (entry (page * 4096) flags) ≡ page * 4096) =
      entry-says page flags small in
    let set : v'.entries k.pt (pt_index virt) ≡ entry (page * 4096) flags =
      k.set ∙ ap (λ p. entry p flags) whole in
    let here : present (v'.entries k.pt (pt_index virt)) ≡ true = ap present set ∙ says.0 in
    let gone : unmap_page virt v' ≡ (true, with_entry v' k.pt (pt_index virt) 0) =
      unmap_page-Reaches virt k.pt v' k.reaches here in
    let left : Reaches virt k.pt (with_entry v' k.pt (pt_index virt) 0) =
      with_entry-Reaches virt k.pt 0 v' k.reaches in
    (
      record { level = k.reaches.level; tree = k.reaches.tree },
      get_phys_addr-Reaches virt k.pt v' k.reaches
          ∙ ap₂ (λ b a. if b then bit_or a (virt % 4096) else 0) here (ap address set ∙ says.1)
          ∙ bit_or-disjoint 12 page (virt % 4096) (omega arith)
          ∙ omega (arith, whole),
      ap (λ r. r.0) gone,
      subst (λ r. Rooted r.1) (sym gone) record { level = left.level; tree = left.tree },
      ap (λ r. get_phys_addr virt r.1) gone
          ∙ get_phys_addr-Reaches virt k.pt _ left
          ∙ ap (translated virt) (put_entry-same v'.entries k.pt (pt_index virt) 0),
    )

-- vmm_map_page of a page, with flags in the lowest 12 bits, on page tables that form a tree
-- over a valid page allocator that has their pages marked: it fails only when no page is left,
-- or vmm_get_phys_addr gives the page and the offset of the address, vmm_unmap_page then
-- succeeds, and afterwards vmm_get_phys_addr gives 0; the tables form a tree each time.
pub map_page-Translates :
    (virt phys flags : ℕ) (v : Vmm)
    → Rooted v
    → flags < 4096
    → phys % 4096 ≡ 0
    → Translates virt phys (map_page virt phys flags v)
map_page-Translates virt phys flags v r small aligned =
    conclude (map_page virt phys flags v) (map_page-Mapped virt phys flags v r.level r.tree small)
  where
    conclude : (o : Bool × Vmm) → Mapped virt phys flags o → Translates virt phys o
    conclude (false, v') k = k
    conclude (true, v') k = Maps-Translates virt phys flags v' small aligned k
