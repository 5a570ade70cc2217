-- ===== src/Mm/Heap/Calls/Growing.antt =====
-- expand_heap of kernel/src/mm/heap.c: a new last block.
use alephos.Prelude.{ℕ, ◌+◌, ◌^◌, ◌≤◌, ◌<◌}
use alephos.Prelude.{◌≡◌, refl, sym, ap, ap₂, ◌∙◌, subst, ◌≢◌, true, false}
use alephos.Prelude.{Option, none, some, List, [], ◌∷◌, ◌++◌, arith}
use alephos.Prelude.{length, length-append}
use alephos.Prelude.{u32, u64}
use alephos.Mm.Heap.{Header, Headers, Layout, store}
use alephos.Mm.Heap.Cells.{
  Cell, header, before_of, Tiles, store-same, store-other, Describes-plug, Tiles-plug,
}
use alephos.Mm.Heap.Layouts.{
  IsLayout, AtBlock, at_block, total, used, unused, free_count, total-append, used-append,
  unused-append, free_count-append, parts, length-le-total,
}
use alephos.Mm.Heap.Calls.{append_block}

-- The block behind `w`
abbrev pub behind : Cell → ℕ → Cell
behind w s = record { addr = w.addr + w.size; size = s; free = true }

-- What `append_block` makes of the address and of the size.
abbrev appended : ℕ → ℕ → ℕ → Layout → ℕ × Layout
appended a at size (m, stats) =
    let m1 = store m at (header (some a) (record { addr = at; size = size; free = true }) []) in
    (
      at,
      (
        store m1 a (record (m1 a) { last = false; next = some at }),
        record stats {
          total_size = u64 (stats.total_size + size);
          free_size = u64 (stats.free_size + size);
          total_blocks = u64 (stats.total_blocks + 1);
          free_blocks = u64 (stats.free_blocks + 1);
        },
      ),
    )

pub append_block-IsLayout :
    (n : ℕ) (xs : List Cell) (w : Cell) (s : ℕ) (l : Layout)
    → IsLayout n (xs ++ (w ∷ [])) l
    → 28 ≤ s
    → total (xs ++ (w ∷ [])) + s < 2 ^ 32
    → ((append_block w.addr s l).0 ≡ w.addr + w.size)
      × IsLayout n (xs ++ (w ∷ (behind w s ∷ []))) (append_block w.addr s l).1
unfolding append_block
append_block-IsLayout n xs w s l v enough room =
    let all : List Cell = xs ++ (w ∷ []) in
    let new : List Cell = xs ++ (w ∷ (behind w s ∷ [])) in
    let k : AtBlock n xs w [] l = at_block n xs w [] l v in
    let p : Option ℕ = before_of none xs in
    let e : ℕ = n + total all in
    let e' : ℕ = n + total new in
    let at : ℕ = w.addr + w.size in
    let ends : at ≡ e = k.area.2 in
    let where_at : u64 (w.addr + (l.0 w.addr).size) ≡ at =
      ap (λ (h : Header). u64 (w.addr + h.size)) k.rest.0 ∙ omega (arith, v.fits) in
    let fits : u32 s ≡ s = omega arith in
    let grown : total new ≡ total all + s =
      omega (arith, total-append xs (w ∷ []), total-append xs (w ∷ (behind w s ∷ []))) in
    let h2 : Header = header (some w.addr) (behind w s) [] in
    let m1 : Headers = store l.0 at h2 in
    let h1 : Header = record (m1 w.addr) { last = false; next = some at } in
    let m2 : Headers = store m1 w.addr h1 in
    let kept : m1 w.addr ≡ header p w [] =
      store-other l.0 at w.addr h2 (λ x. absurd (omega arith)) ∙ k.rest.0 in
    let linked : h1 ≡ header p w (behind w s ∷ []) =
      ap (λ (h : Header). let r : Header = record h { last = false; next = some at } in r) kept in
    let blocks : length all ≤ total all = length-le-total n all e v.tiles in
    let sums : (used all + unused all ≡ total all) × (free_count all ≤ length all) = parts all in
    let tiled : Tiles w.addr (w ∷ (behind w s ∷ [])) e' =
      (refl, k.area.1, (refl, enough, omega (arith, ends, grown))) in
    let made : append_block w.addr s l ≡ appended w.addr at s l =
      ap₂ (λ x y. appended w.addr x y l) where_at fits in
    let apart : w.addr ≢ at = λ x. omega (arith, x, enough, k.area.1) in
    subst (λ (r : ℕ × Layout). (r.0 ≡ at) × IsLayout n new r.1) (sym made)
      (
        refl,
        record {
          describes =
              Describes-plug l.0 m2 none n xs w w [] (behind w s ∷ []) e refl
                (λ a low.
                  store-other m1 w.addr a h1 (λ x. absurd (omega arith))
                  ∙ store-other l.0 at a h2 (λ x. absurd (omega arith)))
                v.tiles v.describes
                (
                  store-same m1 w.addr h1 ∙ linked,
                  (store-other m1 w.addr at h1 apart ∙ store-same l.0 at h2, tt),
                );
          tiles = Tiles-plug n xs w w [] (behind w s ∷ []) e e' v.tiles tiled;
          fits = v.fits;
          small = omega (arith, grown, room);
          counts = record {
            size = omega (arith, v.counts.size, grown, room);
            taken = omega (
              arith,
              v.counts.taken,
              used-append xs (w ∷ []),
              used-append xs (w ∷ (behind w s ∷ [])),
            );
            left = omega (
              arith,
              v.counts.left,
              sums.0,
              room,
              unused-append xs (w ∷ []),
              unused-append xs (w ∷ (behind w s ∷ [])),
            );
            blocks = omega (
              arith,
              v.counts.blocks,
              blocks,
              room,
              length-append xs (w ∷ []),
              length-append xs (w ∷ (behind w s ∷ [])),
            );
            frees = omega (
              arith,
              v.counts.frees,
              sums.1,
              blocks,
              room,
              free_count-append xs (w ∷ []),
              free_count-append xs (w ∷ (behind w s ∷ [])),
            );
          };
        },
      )
