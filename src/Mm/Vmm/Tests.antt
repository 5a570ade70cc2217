-- ===== src/Mm/Vmm/Tests.antt =====
-- A root table without entries, over the small page allocator.
use alephos.Prelude.{ℕ, ◌*◌}
use alephos.Prelude.{◌≡◌, refl, sym, ap, subst, ◌≢◌, inl, inr, true}
use alephos.Prelude.{arith}
use alephos.Prelude.{◌==◌, if◌then◌else◌, Bool-cases, ==→eq}
use mathlib.Core.Bool.{true≢false}
use alephos.Mm.Pmm.Tests.{small, small-IsValid, small-used}
use alephos.Mm.Pmm.{bitmap_test}
use alephos.Mm.Vmm.{Vmm, map_page}
use alephos.Mm.Vmm.Mapping.{Rooted}
use alephos.Mm.Vmm.Translating.{Translates, map_page-Translates}

abbrev empty : Vmm
empty = record { current_pml4 = 262144; entries = λ t i. 0; pmm = small }

abbrev only_root : ℕ → ℕ
only_root u = if u == 262144 then 4 else 0

root-used : (page : ℕ) → only_root (page * 4096) ≢ 0 → bitmap_test small.bitmap page ≡ true
root-used page n = elim (Bool-cases (page * 4096 == 262144)) [
  | inl e ↦
      subst (λ p. bitmap_test small.bitmap p ≡ true) (omega (arith, ==→eq (page * 4096) 262144 e))
        small-used
  | inr e ↦ absurd (n (ap (λ b. if b then 4 else 0) e))
]

empty-Rooted : Rooted empty
empty-Rooted = record {
  level = only_root;
  tree = record {
    valid = small-IsValid;
    root = refl;
    child = λ t i high here. absurd (true≢false (sym here));
    marked = root-used;
  };
}

map_page-Translates_example : Translates 1073741827 8192 (map_page 1073741827 8192 3 empty)
map_page-Translates_example =
    map_page-Translates 1073741827 8192 3 empty empty-Rooted (omega arith) refl
