-- ===== src/Mm/Pmm/Ownership.antt =====
-- Who holds the pages of kernel/src/mm/pmm.c, over any sequence of calls.
use alephos.Prelude.{ℕ, ◌/◌, ◌≤◌, ◌<◌}
use alephos.Prelude.{◌≡◌, sym, ap, ◌∙◌, subst, Bool, true, false}
use alephos.Prelude.{none, some, arith}
use alephos.Prelude.{◌==◌, if◌then◌else◌}
use alephos.Mm.Pmm.{Pmm, bitmap_test, alloc_page, free_page}
use alephos.Mm.Pmm.Alloc.{IsValid, Used, Allocated, alloc_page-Allocated}
use alephos.Mm.Pmm.Release.{Released, free_page-Released}

-- The allocator, and which pages were handed out and not yet given back.
pub record Ledger : Type 0 where
  pub pmm : Pmm
  pub held : ℕ → Bool

abbrev pub mark : (ℕ → Bool) → ℕ → Bool → ℕ → Bool
mark held page b q = if q == page then b else held q

pub data Step : Ledger → Ledger → Type 0 where
  allocates :
      {l : Ledger} {addr : ℕ} {s : Pmm}
      → alloc_page l.pmm ≡ (some addr, s)
      → Step l (record l { pmm = s; held = mark l.held (addr / 4096) true })
  finds_none : {l : Ledger} {s : Pmm} → alloc_page l.pmm ≡ (none, s) → Step l (record l { pmm = s })
  -- a holder gives its page back, by any address in the page
  frees :
      {l : Ledger} (addr : ℕ)
      → l.held (addr / 4096) ≡ true
      → Step l (record l { pmm = free_page addr l.pmm; held = mark l.held (addr / 4096) false })

pub data Steps (l : Ledger) : Ledger → Type 0 where
  here : Steps l l
  next : {k m : Ledger} → Steps l k → Step k m → Steps l m

-- The allocator is valid, and every page that is held is marked used.
pub record IsSound (l : Ledger) : Type 0 where
  pub valid : IsValid l.pmm
  pub marked : (q : ℕ) → l.held q ≡ true → Used l.pmm q

Step-IsSound : {l m : Ledger} → Step l m → IsSound l → IsSound m
Step-IsSound (allocates {l} {addr} {s} e) d =
    let (page, at, t) : Allocated l.pmm (some addr, s) =
      subst (Allocated l.pmm) e (alloc_page-Allocated l.pmm d.valid) in
    let same : addr / 4096 ≡ page = omega arith in
    record { valid = t.valid; marked = λ q h. ground (arith, t.others q, t.now_used, d.marked q) }
Step-IsSound (finds_none {l} {s} e) d =
    let same : s ≡ l.pmm = (subst (Allocated l.pmm) e (alloc_page-Allocated l.pmm d.valid)).0 in
    record {
      valid = subst IsValid (sym same) d.valid;
      marked = λ q h. ap (λ t. bitmap_test t.bitmap q) same ∙ d.marked q h;
    }
Step-IsSound (frees {l} addr h) d =
    let r : Released l.pmm (addr / 4096) (free_page addr l.pmm) =
      free_page-Released l.pmm addr d.valid in
    record { valid = r.valid; marked = λ q k. ground (arith, r.others q, d.marked q) }

Steps-IsSound : {l m : Ledger} → Steps l m → IsSound l → IsSound m
Steps-IsSound here d = d
Steps-IsSound (next steps step) d = Step-IsSound step (Steps-IsSound steps d)

-- No page is handed out twice: after any sequence of allocations and of frees by holders, from
-- a valid state in which every held page is marked used, the page that pmm_alloc_page returns
-- is held by nobody, exists, and is none of the first 64.
pub alloc_page-unheld :
    {l m : Ledger} {addr : ℕ} {s : Pmm}
    → Steps l m
    → IsSound l
    → alloc_page m.pmm ≡ (some addr, s)
    → (m.held (addr / 4096) ≡ false) × (addr / 4096 < m.pmm.total_pages) × (64 ≤ addr / 4096)
alloc_page-unheld {m} {addr} {s} steps d e =
    let end : IsSound m = Steps-IsSound steps d in
    let (page, at, t) : Allocated m.pmm (some addr, s) =
      subst (Allocated m.pmm) e (alloc_page-Allocated m.pmm end.valid) in
    let same : addr / 4096 ≡ page = omega arith in
    (
      ground (arith, end.marked (addr / 4096), t.was_free),
      omega (arith, t.in_range),
      omega (arith, t.allowed),
    )
