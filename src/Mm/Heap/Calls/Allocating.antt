-- ===== src/Mm/Heap/Calls/Allocating.antt =====
-- heap_alloc of kernel/src/mm/heap.c: the block that a caller gets.
use alephos.Prelude.{ℕ, zero, suc, ◌+◌, ◌^◌, ◌≤◌, ◌<◌}
use alephos.Prelude.{◌≡◌, refl, sym, ◌∙◌, subst}
use alephos.Prelude.{Option, none, some, List, ◌∷◌, ◌++◌, arith}
use alephos.Prelude.{length}
use alephos.Prelude.{u64}
use alephos.Prelude.{◌>>=◌}
use alephos.Core.Process.Removal.{Yields}
use alephos.Mm.Heap.{Layout, Heap, Pages, layout, find_free_block, split_block, take_block}
use alephos.Mm.Heap.Cells.{Cell, Tiles-le}
use alephos.Mm.Heap.Layouts.{IsLayout, AtBlock, at_block, total, length-le-total}
use alephos.Mm.Heap.Freeing.{Yields-bind}
use alephos.Mm.Heap.Calls.{alloc, align8, or_expand, finish_alloc}
use alephos.Mm.Heap.Calls.Searching.{Finds, Gains, find_free_block-Finds, take-Gains}
use alephos.Mm.Heap.Calls.Promises.{Ready, Search, Grants}
use alephos.Mm.Heap.Calls.Expanding.{starts, or_expand-Search}

module _ (P : Pages) (n s : ℕ) (hs : List Cell) (size : ℕ) where
  open P use {State}

  finish_alloc-Grants :
      (h : Heap State) (r : Option ℕ × Heap State)
      → Search n s hs size h r
      → Grants n s (s + size + 4123) hs size h (finish_alloc P size r)
  unfolding finish_alloc
  finish_alloc-Grants h (none, h') f = f
  finish_alloc-Grants h (some a, h') f =
      let v : IsLayout n (f.fits.before ++ (f.fits.cell ∷ f.fits.after)) (layout h') =
        subst (λ m. IsLayout n m (layout h')) f.fits.place f.layout_ok in
      let k : AtBlock n f.fits.before f.fits.cell f.fits.after (layout h') =
        at_block n f.fits.before f.fits.cell f.fits.after (layout h') v in
      let near : u64 (a + 28) ≡ a + 28 =
        omega (arith, k.area.1, Tiles-le _ f.fits.after _ k.area.2, v.small, v.fits, f.fits.at) in
      let l : Layout = take_block a (split_block a size (layout h')) in
      record {
        bytes = total f.cells;
        larger = f.larger;
        bounded = f.bounded;
        start = f.start;
        gains =
            subst (λ b. Gains n (total f.cells) hs size b l) (omega (arith, near))
              (subst (λ q. Gains n (total f.cells) q size a l) f.in_use
                (take-Gains n size a f.cells (layout h') f.layout_ok f.fits));
        behind_header = omega (arith, near);
      }

align8-le :
    (P : Pages) (size : ℕ) → size + 7 < 2 ^ 64 → (size ≤ align8 P size) × (align8 P size ≤ size + 7)
align8-le P size h = (omega arith, omega arith)

Grants-less :
    {S : Type 0} (n s limit wider : ℕ) (hs : List Cell) (size more : ℕ) (h : Heap S)
    (r : Option ℕ × Heap S)
    → size ≤ more
    → limit ≤ wider
    → Grants n s limit hs more h r
    → Grants n s wider hs size h r
Grants-less n s limit wider hs size more h (none, h') le lw g = g
Grants-less n s limit wider hs size more h (some ptr, h') le lw g =
    let w = g.gains in
    record {
      bytes = g.bytes;
      larger = g.larger;
      bounded = omega (arith, g.bounded);
      start = g.start;
      gains = record {
        before = w.before;
        cell = w.cell;
        after = w.after;
        place = w.place;
        at = w.at;
        room = omega (arith, w.room);
        holds = w.holds;
      };
      behind_header = g.behind_header;
    }

-- heap_alloc on a heap whose block list is right, with room below 4 GiB, ends: it returns NULL
-- and changes nothing but the pages, or the address behind the header of a block with room for
-- the request, which is added to those in use, the others kept where they were; the list is
-- right again: its blocks tile the heap, so that none overlaps, links and statistics fit, and
-- it has grown by little more than the request.
pub alloc-Grants :
    (P : Pages) (fuel n s : ℕ) (hs : List Cell) (size : ℕ) (h : Heap P.State)
    → Ready n s hs h
    → s < fuel
    → s + size + 5000 < 2 ^ 32
    → Yields (Grants n s (s + size + 4130) hs size h) (alloc P fuel size h)
unfolding alloc
alloc-Grants P fuel n s hs zero h r enough room = (refl, refl, refl)
alloc-Grants P fuel n s hs (suc k) h r enough room =
    let v = r.holds in
    let short : length v.cells ≤ total v.cells =
      length-le-total n v.cells (n + total v.cells) v.layout.tiles in
    let (up, near) = align8-le P (suc k) (omega arith) in
    let size : ℕ = align8 P (suc k) in
    let search : Finds v.cells size (find_free_block fuel h.headers h.heap_start size) =
      subst (λ a. Finds v.cells size (find_free_block fuel h.headers a size))
        (starts n v.cells (n + total v.cells) v.layout.tiles (omega (arith, v.whole, r.some_bytes))
          ∙ sym r.start)
        (find_free_block-Finds fuel h.headers none v.cells size (omega (arith, v.whole))
          (omega arith) v.layout.describes) in
    chosen (find_free_block fuel h.headers h.heap_start size) up near search
  where
    chosen :
        (o : Option (Option ℕ))
        → suc k ≤ align8 P (suc k)
        → align8 P (suc k) ≤ suc k + 7
        → Finds r.holds.cells (align8 P (suc k)) o
        → Yields (Grants n s (s + suc k + 4130) hs (suc k) h) (
            o >>= λ found.
            (or_expand P fuel (align8 P (suc k)) found h >>= λ q.
            some (finish_alloc P (align8 P (suc k)) q)))
    chosen none up near f = absurd f
    chosen (some found) up near f =
        Yields-bind (Search n s hs (align8 P (suc k)) h)
          (Grants n s (s + suc k + 4130) hs (suc k) h) (or_expand P fuel (align8 P (suc k)) found h)
          (λ q. some (finish_alloc P (align8 P (suc k)) q))
          (or_expand-Search P n s hs (align8 P (suc k)) fuel r.holds.cells found h r.start
            r.holds.whole r.holds.layout r.holds.in_use r.some_bytes enough (omega arith) f)
          (λ q g.
            Grants-less n s (s + align8 P (suc k) + 4123) (s + suc k + 4130) hs (suc k)
              (align8 P (suc k)) h (finish_alloc P (align8 P (suc k)) q) up (omega arith)
              (finish_alloc-Grants P n s hs (align8 P (suc k)) h q g))
