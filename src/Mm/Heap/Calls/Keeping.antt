-- ===== src/Mm/Heap/Calls/Keeping.antt =====
-- Calls of kernel/src/mm/heap.c one after another: heap_init, heap_free, and heap_free of what heap_alloc gave.
use alephos.Prelude.{ℕ, ◌+◌, ◌^◌, ◌≤◌, ◌<◌}
use alephos.Prelude.{◌≡◌, refl, sym, ap, ap₂, ◌∙◌, subst, inl, inr, true, false}
use alephos.Prelude.{Option, none, some, List, [], ◌∷◌, ◌++◌, arith}
use alephos.Prelude.{if◌then◌else◌, Bool-cases}
use alephos.Prelude.{length, length-append}
use alephos.Prelude.{sub64}
use mathlib.Core.Option.{some-injective}
use mathlib.Core.List.{head-eq_of_cons-eq, tail-eq_of_cons-eq}
use alephos.Prelude.{◌>>=◌}
use alephos.Core.Process.Removal.{Yields}
use alephos.Mm.Heap.{store, page_flags, Heap, Pages, layout, with_layout, free, free_block}
use alephos.Mm.Heap.Cells.{Cell, header, Tiles-le, store-same}
use alephos.Mm.Heap.Layouts.{IsLayout, AtBlock, at_block, total, length-le-total}
use alephos.Mm.Heap.Freeing.{Holds, held, Yields-bind, Yields-map, free_block-Holds}
use alephos.Mm.Heap.Calls.{alloc, init, init_at}
use alephos.Mm.Heap.Calls.Allocating.{alloc-Grants}
use alephos.Mm.Heap.Calls.Promises.{Ready, Grants, Unchanged}

-- Where a block in use stands in the list.
record Place (cells before : List Cell) (b : Cell) (after : List Cell) : Type 0 where
  pub xs : List Cell
  pub ys : List Cell
  pub whole : cells ≡ xs ++ (b ∷ ys)
  pub taken : b.free ≡ false
  pub low : held xs ≡ before
  pub high : held ys ≡ after

Place-skip :
    (x : Cell) (cells before : List Cell) (b : Cell) (after : List Cell)
    → x.free ≡ true
    → Place cells before b after
    → Place (x ∷ cells) before b after
Place-skip x cells before b after f p = record {
  xs = x ∷ p.xs;
  ys = p.ys;
  whole = ap (λ l. x ∷ l) p.whole;
  taken = p.taken;
  low = ap (λ t. if t then held p.xs else x ∷ held p.xs) f ∙ p.low;
  high = p.high;
}

held-Place :
    (cells before : List Cell) (b : Cell) (after : List Cell)
    → held cells ≡ before ++ (b ∷ after)
    → Place cells before b after
held-Place [] before b after e =
    absurd (omega (arith, ap length e, length-append before (b ∷ after)))
held-Place (x ∷ xs) [] b after e = elim (Bool-cases x.free) [
  | inl f ↦
      Place-skip x xs [] b after f
        (held-Place xs [] b after (sym (ap (λ t. if t then held xs else x ∷ held xs) f) ∙ e))
  | inr f ↦
      let e' : x ∷ held xs ≡ b ∷ after = sym (ap (λ t. if t then held xs else x ∷ held xs) f) ∙ e in
      let same : x ≡ b = head-eq_of_cons-eq e' in
      record {
        xs = [];
        ys = xs;
        whole = ap (λ c. c ∷ xs) same;
        taken = ap (λ c. c.free) (sym same) ∙ f;
        low = refl;
        high = tail-eq_of_cons-eq e';
      }
]
held-Place (x ∷ xs) (z ∷ zs) b after e = elim (Bool-cases x.free) [
  | inl f ↦
      Place-skip x xs (z ∷ zs) b after f
        (held-Place xs (z ∷ zs) b after (sym (ap (λ t. if t then held xs else x ∷ held xs) f) ∙ e))
  | inr f ↦
      let e' : x ∷ held xs ≡ z ∷ (zs ++ (b ∷ after)) =
        sym (ap (λ t. if t then held xs else x ∷ held xs) f) ∙ e in
      let p : Place xs zs b after = held-Place xs zs b after (tail-eq_of_cons-eq e') in
      record {
        xs = x ∷ p.xs;
        ys = p.ys;
        whole = ap (λ l. x ∷ l) p.whole;
        taken = p.taken;
        low =
            ap (λ t. if t then held p.xs else x ∷ held p.xs) f
            ∙ ap₂ (λ c l. c ∷ l) (head-eq_of_cons-eq e') p.low;
        high = p.high;
      }
]

-- heap_free of a block in use, on a heap whose block list is right, ends, takes that block and
-- no other out of those in use, and leaves a right list: blocks that tile the heap, with the
-- links and the statistics that fit them.
pub free-Ready :
    {S : Type 0} (fuel n s : ℕ) (before : List Cell) (b : Cell) (after : List Cell) (h : Heap S)
    → Ready n s (before ++ (b ∷ after)) h
    → s < fuel
    → Yields (Ready n s (before ++ after)) (free fuel (some (b.addr + 28)) h)
unfolding free with_layout
free-Ready fuel n s before b after h r enough =
    let v = r.holds in
    let p : Place v.cells before b after = held-Place v.cells before b after v.in_use in
    let all : List Cell = p.xs ++ (b ∷ p.ys) in
    let w : IsLayout n all (layout h) = subst (λ m. IsLayout n m (layout h)) p.whole v.layout in
    let whole : total all ≡ s = ap total (sym p.whole) ∙ v.whole in
    let short : length all ≤ total all = length-le-total n all (n + total all) w.tiles in
    let k : AtBlock n p.xs b p.ys (layout h) = at_block n p.xs b p.ys (layout h) w in
    let near : sub64 (b.addr + 28) 28 ≡ b.addr =
      omega (arith, k.area.1, Tiles-le _ p.ys _ k.area.2, k.inside) in
    subst
      (λ a.
        Yields (Ready n s (before ++ after))
          (free_block fuel a (layout h) >>= λ l. some (with_layout h l)))
      (sym near)
      (Yields-bind (Holds n s (held p.xs ++ held p.ys)) (Ready n s (before ++ after))
        (free_block fuel b.addr (layout h)) (λ l. some (with_layout h l))
        (free_block-Holds fuel n s p.xs b p.ys (layout h)
          (omega (arith, short, whole, length-append p.xs (b ∷ p.ys))) whole w p.taken)
        (λ l q. record {
          start = r.start;
          some_bytes = r.some_bytes;
          holds = subst (λ hs. Holds n s hs l) (ap₂ (λ x y. x ++ y) p.low p.high) q;
        }))

-- The block that fills the first page
abbrev page_block : ℕ → Cell
page_block a = record { addr = a; size = 4096; free = true }

-- The heap of that block
abbrev first_page : {S : Type 0} → ℕ → Heap S → S → Heap S
first_page a h s = record h {
  heap_start = some a;
  headers = store h.headers a (header none (page_block a) []);
  statistics = record {
    total_size = 4096;
    used_size = 0;
    free_size = 4096;
    total_blocks = 1;
    free_blocks = 1;
  };
  pages = s;
}

-- heap_init with a page that lies 4 GiB below the end of the addresses returns true and leaves
-- a right block list of one page with nothing in use, or returns false and leaves the heap as
-- it was, its pages apart.
pub init-Ready :
    (P : Pages) (h : Heap P.State) (n : ℕ)
    → (P.alloc_page h.pages).0 ≡ some n
    → n + 2 ^ 32 ≤ 2 ^ 64
    → if (init P h).0 then Ready n 4096 [] (init P h).1 else Unchanged h (init P h).1
unfolding init
init-Ready P h n given high = started (P.alloc_page h.pages) given
  where
    started :
        (r : Option ℕ × P.State)
        → r.0 ≡ some n
        → if (init_at P r h).0
          then Ready n 4096 [] (init_at P r h).1
          else Unchanged h (init_at P r h).1
    started (none, s) e = (refl, refl, refl)
    started (some a, s) e = elim (Bool-cases (P.map_page a a page_flags s).0) [
      | inl m ↦ rw m (
          subst (λ k. Ready k 4096 [] (first_page a h (P.map_page a a page_flags s).1))
            (some-injective a n e)
            record {
              start = refl;
              some_bytes = omega arith;
              holds = record {
                cells = page_block a ∷ [];
                whole = refl;
                layout = record {
                  describes = (store-same h.headers a (header none (page_block a) []), tt);
                  tiles = (refl, omega arith, refl);
                  fits = omega (arith, high, some-injective a n e);
                  small = omega arith;
                  counts = record {
                    size = refl;
                    taken = refl;
                    left = refl;
                    blocks = refl;
                    frees = refl;
                  };
                };
                in_use = refl;
              };
            })
      | inr m ↦ rw m (refl, refl, refl)
    ]

-- What is left when what `heap_alloc` gave is freed.
abbrev pub Released :
    {S : Type 0} (fuel n s : ℕ) (hs : List Cell) (h : Heap S) → Option ℕ × Heap S → Type 0
Released fuel n s hs h (none, h') = Unchanged h h'
Released fuel n s hs h (some ptr, h') =
    (s' : ℕ) × (s ≤ s') × Yields (Ready n s' hs) (free fuel (some ptr) h')

-- On a heap whose block list is right, with room below 4 GiB, heap_alloc returns NULL and
-- leaves the heap as it was, its pages apart, or heap_free of what it gave leaves a right list
-- again with exactly the earlier blocks in use; both calls end.
pub free-alloc :
    (P : Pages) (fuel n s : ℕ) (hs : List Cell) (size : ℕ) (h : Heap P.State)
    → Ready n s hs h
    → s + size + 4130 < fuel
    → s + size + 5000 < 2 ^ 32
    → Yields (Released fuel n s hs h) (alloc P fuel size h)
free-alloc P fuel n s hs size h r enough room =
    Yields-map (Grants n s (s + size + 4130) hs size h) (Released fuel n s hs h)
      (alloc P fuel size h) (λ q g. release q g)
      (alloc-Grants P fuel n s hs size h r (omega arith) room)
  where
    release :
        (q : Option ℕ × Heap P.State)
        → Grants n s (s + size + 4130) hs size h q
        → Released fuel n s hs h q
    release (none, h') g = g
    release (some ptr, h') g =
        let w = g.gains in
        let q : Ready n g.bytes (w.before ++ (w.cell ∷ w.after)) h' = record {
          start = g.start;
          some_bytes = omega (arith, r.some_bytes, g.larger);
          holds = w.holds;
        } in
        (
          g.bytes,
          g.larger,
          subst (λ a. Yields (Ready n g.bytes hs) (free fuel (some a) h'))
              (omega (arith, w.at, g.behind_header))
              (subst (λ u. Yields (Ready n g.bytes u) (free fuel (some (w.cell.addr + 28)) h'))
                (sym w.place)
                (free-Ready fuel n g.bytes w.before w.cell w.after h' q
                  (omega (arith, g.bounded)))),
        )
