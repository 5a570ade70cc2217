-- ===== src/Mm/Vmm.antt =====
-- kernel/src/mm/vmm.c: the four-level page tables. A table is named by its physical address; the
-- HHDM offset, which turns that into a pointer, has no part here, and neither has the TLB.
pub mod Tree
pub mod Linking
pub mod Mapping
pub mod Translating
mod Tests
use alephos.Prelude.{
  ℕ, zero, suc, ◌+◌, ◌-◌, ◌*◌, ◌/◌, ◌%◌, ◌^◌, ◌≤◌, ◌<◌, min, max, bit_and, bit_or, bit_xor,
}
use alephos.Prelude.{
  ◌≡◌, refl, sym, ap, ap₂, ◌∙◌, subst, ◌≢◌, ◌↔◌, ◌⊎◌, inl, inr, Bool, true, false, not, ◌&&◌, ◌||◌,
}
use alephos.Prelude.{Option, none, some, List, [], ◌∷◌, ◌++◌, append-nil, append_assoc, arith}
use alephos.Prelude.{
  ltb, leb, ◌==◌, if◌then◌else◌, is_some, Bool-cases, Option-cases, if_both, ltb→lt, ltb→le, lt→ltb,
  ==→eq, ==→ne, eq→==, ne→==,
}
use alephos.Prelude.{
  length, get_elem?, get_or, set, take, drop, replicate, length-append, length-set,
  length-replicate, length-take, length-drop, take-append-drop, get_or-set_self, get_or-set_ne,
  get_or-replicate, set-get_or, set-set, take-ge, drop-ge, take-of_append, drop-of_append,
}
use alephos.Prelude.{u8, u16, u32, u64, sub32, sub64}
use alephos.Prelude.{◌>>=◌}
use alephos.Mm.Pmm.{Pmm, alloc_page}

abbrev pub Entries : Type 0
Entries = ℕ → ℕ → ℕ

pub record Vmm : Type 0 where
  pub current_pml4 : ℕ
  pub entries : Entries
  pub pmm : Pmm

-- `& PTE_PRESENT`
abbrev pub present : ℕ → Bool
present e = e % 2 == 1

-- `& ~0xFFF`
abbrev pub address : ℕ → ℕ
address e = e / 4096 * 4096

-- `| flags | PTE_PRESENT`
pub entry : ℕ → ℕ → ℕ
entry at flags = bit_or (bit_or at flags) 1

pub put_entry : Entries → ℕ → ℕ → ℕ → Entries
put_entry m t i e u j = if (u == t) && (j == i) then e else m u j

-- `memset` of a new table
pub clear_table : Entries → ℕ → Entries
clear_table m t u j = if u == t then 0 else m u j

abbrev pub pml4_index : ℕ → ℕ
pml4_index v = v / 2 ^ 39 % 512

abbrev pub pdp_index : ℕ → ℕ
pdp_index v = v / 2 ^ 30 % 512

abbrev pub pd_index : ℕ → ℕ
pd_index v = v / 2 ^ 21 % 512

abbrev pub pt_index : ℕ → ℕ
pt_index v = v / 2 ^ 12 % 512

-- The new table in the page that the allocator gave.
pub created : Option ℕ × Pmm → Vmm → Option ℕ × Vmm
unfolding clear_table
created (none, s) v = (none, record v { pmm = s })
created (some p, s) v = (some p, record v { pmm = s; entries = clear_table v.entries p })

pub create_page_table : Vmm → Option ℕ × Vmm
unfolding created
create_page_table v = created (alloc_page v.pmm) v

-- A new table goes into its entry.
pub link : ℕ → ℕ → ℕ → Option ℕ × Vmm → Option ℕ × Vmm
unfolding put_entry entry
link t i flags (none, v) = (none, v)
link t i flags (some c, v) =
    (some c, record v { entries = put_entry v.entries t i (entry c flags) })

-- The table that an entry leads to, or a new one.
pub get_or_create : ℕ → ℕ → ℕ → Vmm → Option ℕ × Vmm
unfolding link create_page_table
get_or_create t i flags v =
    if present (v.entries t i)
    then (some (address (v.entries t i)), v)
    else link t i flags (create_page_table v)

-- `if (!table) return false;`
pub unless_null : Option ℕ × Vmm → (ℕ → Vmm → Bool × Vmm) → Bool × Vmm
unless_null (none, v) f = (false, v)
unless_null (some t, v) f = f t v

-- `vmm_map_page`
pub map_page : ℕ → ℕ → ℕ → Vmm → Bool × Vmm
unfolding get_or_create unless_null put_entry entry
map_page virt phys flags v =
    unless_null (get_or_create v.current_pml4 (pml4_index virt) flags v) (λ pdp v1.
      unless_null (get_or_create pdp (pdp_index virt) flags v1) (λ pd v2.
        unless_null (get_or_create pd (pd_index virt) flags v2) (λ pt v3. (
          true,
          record v3 { entries = put_entry v3.entries pt (pt_index virt) (entry phys flags) },
        ))))

-- The table that an entry leads to, if it is present.
pub descend : Entries → ℕ → ℕ → Option ℕ
descend m t i = if present (m t i) then some (address (m t i)) else none

-- The walk down to the table of pages.
pub find_table : ℕ → Vmm → Option ℕ
unfolding descend
find_table virt v = do
  pdp ← descend v.entries v.current_pml4 (pml4_index virt)
  pd ← descend v.entries pdp (pdp_index virt)
  descend v.entries pd (pd_index virt)

-- `vmm_unmap_page` at its table of pages
pub clear_entry : ℕ → Option ℕ → Vmm → Bool × Vmm
unfolding put_entry
clear_entry virt none v = (false, v)
clear_entry virt (some pt) v =
    if present (v.entries pt (pt_index virt))
    then (true, record v { entries = put_entry v.entries pt (pt_index virt) 0 })
    else (false, v)

-- `vmm_unmap_page`
pub unmap_page : ℕ → Vmm → Bool × Vmm
unfolding clear_entry find_table
unmap_page virt v = clear_entry virt (find_table virt v) v

-- `vmm_get_phys_addr`
pub get_phys_addr : ℕ → Vmm → ℕ
unfolding find_table
get_phys_addr virt v = elim (find_table virt v) [
  | none ↦ 0
  | some pt ↦
      if present (v.entries pt (pt_index virt))
      then bit_or (address (v.entries pt (pt_index virt))) (virt % 4096)
      else 0
]
