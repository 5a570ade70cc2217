-- ===== src/Mm/Heap/Calls/Expanding.antt =====
-- The block that heap_alloc of kernel/src/mm/heap.c uses: one of the list, or a new one.
use alephos.Prelude.{ℕ, ◌+◌, ◌*◌, ◌^◌, ◌≤◌, ◌<◌}
use alephos.Prelude.{◌≡◌, refl, sym, ap, ◌∙◌, subst, inl, inr, Bool}
use alephos.Prelude.{Option, none, some, List, [], ◌∷◌, ◌++◌, append-nil, append_assoc, arith}
use alephos.Prelude.{Bool-cases}
use alephos.Prelude.{length, length-append}
use alephos.Prelude.{u64}
use alephos.Prelude.{◌>>=◌}
use alephos.Core.Process.Removal.{Yields}
use alephos.Mm.Heap.{Heap, Pages, layout, find_last}
use alephos.Mm.Heap.Cells.{Cell, first, Tiles}
use alephos.Mm.Heap.Layouts.{IsLayout, total, total-append, length-le-total}
use alephos.Mm.Heap.Freeing.{held, held-free, snoc_cases}
use alephos.Mm.Heap.Calls.{
  or_expand, expand_heap, expand_from, expand_behind, pages_needed, map_from,
}
use alephos.Mm.Heap.Calls.Searching.{Fits, Finds, find_last-snoc}
use alephos.Mm.Heap.Calls.Growing.{behind, append_block-IsLayout}
use alephos.Mm.Heap.Calls.Promises.{Search}

pages_needed-le :
    (P : Pages) (size : ℕ)
    → size + 8192 < 2 ^ 64
    → (size + 28 ≤ pages_needed P size * 4096) × (pages_needed P size * 4096 ≤ size + 4123)
unfolding pages_needed
pages_needed-le P size h = (omega arith, omega arith)

grown-Fits :
    (xs : List Cell) (w : Cell) (s size : ℕ)
    → size + 28 ≤ s
    → Fits (xs ++ (w ∷ (behind w s ∷ []))) size (w.addr + w.size)
grown-Fits xs w s size r = record {
  before = xs ++ (w ∷ []);
  cell = behind w s;
  after = [];
  place = sym (append_assoc xs (w ∷ []) (behind w s ∷ []));
  at = refl;
  free = refl;
  room = r;
}

grown-held :
    (xs : List Cell) (w : Cell) (s : ℕ)
    → held (xs ++ (w ∷ (behind w s ∷ []))) ≡ held (xs ++ (w ∷ []))
grown-held xs w s =
    ap held (sym (append_assoc xs (w ∷ []) (behind w s ∷ [])))
    ∙ held-free (xs ++ (w ∷ [])) (behind w s) [] refl
    ∙ append-nil (held (xs ++ (w ∷ [])))

pub starts :
    (n : ℕ) (cells : List Cell) (e : ℕ) → Tiles n cells e → 0 < total cells → first cells ≡ some n
starts n [] e t h = absurd (omega arith)
starts n (b ∷ bs) e t h = ap some t.0

module _ (P : Pages) (n s : ℕ) (hs : List Cell) (size : ℕ) where
  open P use {State}

  expand_behind-Search :
      (xs : List Cell) (w : Cell) (h : Heap State)
      → h.heap_start ≡ some n
      → total (xs ++ (w ∷ [])) ≡ s
      → IsLayout n (xs ++ (w ∷ [])) (layout h)
      → held (xs ++ (w ∷ [])) ≡ hs
      → s + size + 4200 < 2 ^ 32
      → Search n s hs size h (expand_behind P size w.addr h)
  unfolding expand_behind
  expand_behind-Search xs w h start whole v own room =
      let m : ℕ = pages_needed P size in
      let k : ℕ = m * 4096 in
      let (enough, least) = pages_needed-le P size (omega arith) in
      let mapped : Bool × State = map_from P m 0 (u64 (w.addr + (h.headers w.addr).size)) h.pages in
      let (at, grown) =
        append_block-IsLayout n xs w k (layout h) v (omega arith) (omega (arith, whole)) in
      let new : List Cell = xs ++ (w ∷ (behind w k ∷ [])) in
      elim (Bool-cases mapped.0) [
        | inl e ↦ rw e record {
          cells = new;
          bounded = omega (
            arith,
            least,
            whole,
            total-append xs (w ∷ []),
            total-append xs (w ∷ (behind w k ∷ [])),
          );
          larger =
              omega
                (arith, whole, total-append xs (w ∷ []), total-append xs (w ∷ (behind w k ∷ [])));
          layout_ok = grown;
          in_use = grown-held xs w k ∙ own;
          fits = subst (λ a. Fits new size a) (sym at) (grown-Fits xs w k size enough);
          start = start;
        }
        | inr e ↦ rw e (refl, refl, refl)
      ]

  expand_from-Search :
      (fuel : ℕ) (cells : List Cell) (r : Option ℕ × State) (h : Heap State)
      → h.heap_start ≡ some n
      → total cells ≡ s
      → IsLayout n cells (layout h)
      → held cells ≡ hs
      → 0 < s
      → s < fuel
      → s + size + 4200 < 2 ^ 32
      → Yields (Search n s hs size h) (expand_from P fuel size r h)
  unfolding expand_from
  expand_from-Search fuel cells (none, p) h start whole v own pos enough room = (refl, refl, refl)
  expand_from-Search fuel cells (some page, p) h start whole v own pos enough room =
      elim (snoc_cases cells) [
        | inl e ↦ absurd (omega (arith, pos, sym whole ∙ ap total e))
        | inr (xs, w, e) ↦
            let all : List Cell = xs ++ (w ∷ []) in
            let whole' : total all ≡ s = ap total (sym e) ∙ whole in
            let v' : IsLayout n all (layout h) = subst (λ m. IsLayout n m (layout h)) e v in
            let short : length all ≤ total all = length-le-total n all (n + total all) v'.tiles in
            let last : find_last fuel h.headers h.heap_start ≡ some w.addr =
              ap (find_last fuel h.headers)
                (start ∙ sym (starts n all _ v'.tiles (omega (arith, pos, whole'))))
              ∙ find_last-snoc fuel h.headers none xs w
                  (omega (arith, short, whole', enough, length-append xs (w ∷ []))) v'.describes in
            let after : Heap State = record h { pages = p } in
            subst
              (λ o. Yields (Search n s hs size h) (o >>= λ a. some (expand_behind P size a after)))
              (sym last)
              (expand_behind-Search xs w after start whole' v' (ap held (sym e) ∙ own) room)
      ]

  -- The block that is used, from the list or new.
  pub or_expand-Search :
      (fuel : ℕ) (cells : List Cell) (found : Option ℕ) (h : Heap State)
      → h.heap_start ≡ some n
      → total cells ≡ s
      → IsLayout n cells (layout h)
      → held cells ≡ hs
      → 0 < s
      → s < fuel
      → s + size + 4200 < 2 ^ 32
      → Finds cells size (some found)
      → Yields (Search n s hs size h) (or_expand P fuel size found h)
  unfolding or_expand expand_heap
  or_expand-Search fuel cells none h start whole v own pos enough room f =
      expand_from-Search fuel cells _ h start whole v own pos enough room
  or_expand-Search fuel cells (some a) h start whole v own pos enough room f = record {
    cells = cells;
    larger = omega (arith, whole);
    bounded = omega (arith, whole);
    layout_ok = v;
    in_use = own;
    fits = f;
    start = start;
  }
