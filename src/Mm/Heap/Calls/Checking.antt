-- ===== src/Mm/Heap/Calls/Checking.antt =====
-- heap_check of kernel/src/mm/heap.c on a list of blocks that is right.
use alephos.Prelude.{ℕ, zero, suc, ◌+◌, ◌^◌, ◌≤◌, ◌<◌}
use alephos.Prelude.{◌≡◌, refl, sym, ap, ap₂, ◌∙◌, Bool, true, false, not, ◌&&◌, ◌||◌}
use alephos.Prelude.{Option, none, some, List, [], ◌∷◌, arith}
use alephos.Prelude.{◌==◌, if◌then◌else◌, eq→==}
use alephos.Prelude.{length}
use alephos.Prelude.{◌>>=◌}
use alephos.Mm.Heap.{Header, Headers, Stats, Layout, Heap, layout, heap_block_magic}
use alephos.Mm.Heap.Cells.{Cell, first, header, Describes}
use alephos.Mm.Heap.Layouts.{
  IsLayout, Counts, total, used, unused, free_count, parts, length-le-total,
}
use alephos.Mm.Heap.Calls.{check, check_from, add_block, back_ok, forth_ok, no_blocks, same_stats}
use alephos.Mm.Heap.Calls.Expanding.{starts}
use alephos.Mm.Heap.Calls.Promises.{Ready}

-- These counts are those before and the blocks'.
record Adds (t : Stats) (bs : List Cell) (t' : Stats) : Type 0 where
  pub size : t'.total_size ≡ t.total_size + total bs
  pub taken : t'.used_size ≡ t.used_size + used bs
  pub left : t'.free_size ≡ t.free_size + unused bs
  pub blocks : t'.total_blocks ≡ t.total_blocks + length bs
  pub frees : t'.free_blocks ≡ t.free_blocks + free_count bs

-- The link forth of the block before.
abbrev Linked : Headers → Option ℕ → ℕ → Type 0
Linked m none a = Unit {0}
Linked m (some p) a = (m p).next ≡ some a

forth_ok-Linked : (m : Headers) (p : Option ℕ) (a : ℕ) → Linked m p a → forth_ok m a p ≡ true
unfolding forth_ok
forth_ok-Linked m none a l = refl
forth_ok-Linked m (some p) a l =
    ap (λ (o : Option ℕ). let r : Bool = elim o [ none ↦ false | some c ↦ c == a ] in r) l
    ∙ eq→== a a refl

back_ok-first :
    (m : Headers) (b : Cell) (bs : List Cell)
    → Describes m (some b.addr) bs
    → back_ok m b.addr (first bs) ≡ true
unfolding back_ok
back_ok-first m b [] d = refl
back_ok-first m b (c ∷ cs) d =
    ap (λ (h : Header). let r : Bool = elim h.prev [ none ↦ false | some a ↦ a == b.addr ] in r) d.0
    ∙ eq→== b.addr b.addr refl

-- What one round adds, for a block that this header describes.
round-Adds :
    (t : Stats) (p : Option ℕ) (b : Cell) (bs : List Cell) (t' : Stats)
    → t.total_size + total (b ∷ bs) < 2 ^ 64
    → t.total_blocks + length (b ∷ bs) < 2 ^ 64
    → t.used_size + t.free_size ≤ t.total_size
    → t.free_blocks ≤ t.total_blocks
    → Adds (add_block (header p b bs) t) bs t'
    → Adds t (b ∷ bs) t'
unfolding add_block
round-Adds t p b bs t' h1 h2 h3 h4 a =
    let sums : (used bs + unused bs ≡ total bs) × (free_count bs ≤ length bs) = parts bs in
    record {
      size = omega (arith, a.size);
      taken = ground (arith, a.taken, sums.0);
      left = ground (arith, a.left, sums.0);
      blocks = omega (arith, a.blocks);
      frees = ground (arith, a.frees, sums.1);
    }

-- What bounds the counts in the next round.
record Kept (t next : Stats) (b : Cell) : Type 0 where
  pub size : next.total_size ≡ t.total_size + b.size
  pub blocks : next.total_blocks ≡ t.total_blocks + 1
  pub whole : next.used_size + next.free_size ≤ next.total_size
  pub counted : next.free_blocks ≤ next.total_blocks

add_block-Kept :
    (t : Stats) (p : Option ℕ) (b : Cell) (bs : List Cell)
    → t.total_size + b.size < 2 ^ 64
    → t.total_blocks + 1 < 2 ^ 64
    → t.used_size + t.free_size ≤ t.total_size
    → t.free_blocks ≤ t.total_blocks
    → Kept t (add_block (header p b bs) t) b
unfolding add_block
add_block-Kept t p b bs h1 h2 h3 h4 = record {
  size = omega arith;
  blocks = omega arith;
  whole = ground arith;
  counted = ground arith;
}

-- One round of the loop at a header, its links tested.
abbrev visit : Bool → Header → Stats → Option (Option Stats) → Option (Option Stats)
visit links h t rest =
    if not (h.magic == heap_block_magic) || not links
    then some none
    else (if h.last then some (some (add_block h t)) else rest)

visit-eq :
    (fuel : ℕ) (m : Headers) (p : Option ℕ) (b : Cell) (bs : List Cell) (t : Stats)
    → Describes m p (b ∷ bs)
    → Linked m p b.addr
    → check_from (suc fuel) m (some b.addr) t
      ≡ visit true (header p b bs) t (check_from fuel m (first bs) (add_block (header p b bs) t))
unfolding check_from
visit-eq fuel m p b bs t d l =
    ap
      (λ (h : Header).
        visit (back_ok m b.addr h.next && forth_ok m b.addr h.prev) h t
          (check_from fuel m h.next (add_block h t)))
      d.0
    ∙ ap₂
        (λ x y.
          visit (x && y) (header p b bs) t
            (check_from fuel m (first bs) (add_block (header p b bs) t)))
        (back_ok-first m b bs d.1) (forth_ok-Linked m p b.addr l)

check_from-Adds :
    (fuel : ℕ) (m : Headers) (p : Option ℕ) (b : Cell) (bs : List Cell) (t : Stats)
    → length (b ∷ bs) < fuel
    → Describes m p (b ∷ bs)
    → Linked m p b.addr
    → t.total_size + total (b ∷ bs) < 2 ^ 64
    → t.total_blocks + length (b ∷ bs) < 2 ^ 64
    → t.used_size + t.free_size ≤ t.total_size
    → t.free_blocks ≤ t.total_blocks
    → (t' : Stats) × (check_from fuel m (some b.addr) t ≡ some (some t')) × Adds t (b ∷ bs) t'
check_from-Adds zero m p b bs t f d l h1 h2 h3 h4 = absurd (omega arith)
check_from-Adds (suc fuel) m p b [] t f d l h1 h2 h3 h4 =
    let t' : Stats = add_block (header p b []) t in
    (
      t',
      visit-eq fuel m p b [] t d l,
      round-Adds t p b [] t' h1 h2 h3 h4 (record {
        size = omega arith;
        taken = omega arith;
        left = omega arith;
        blocks = omega arith;
        frees = omega arith;
      }),
    )
check_from-Adds (suc fuel) m p b (c ∷ cs) t f d l h1 h2 h3 h4 =
    let next : Stats = add_block (header p b (c ∷ cs)) t in
    let k : Kept t next b = add_block-Kept t p b (c ∷ cs) (omega arith) (omega arith) h3 h4 in
    let (t', e, a) =
      check_from-Adds fuel m (some b.addr) c cs next (omega arith) d.1 (ap (λ h. h.next) d.0)
        (omega (arith, k.size)) (omega (arith, k.blocks)) k.whole k.counted in
    (t', visit-eq fuel m p b (c ∷ cs) t d l ∙ e, round-Adds t p b (c ∷ cs) t' h1 h2 h3 h4 a)

-- What `heap_check` says of the counts.
abbrev judge : Stats → Option (Option Stats) → Option Bool
judge s o = o >>= λ r. some (elim r [ none ↦ false | some t ↦ same_stats t s ])

same_stats-Counts :
    (t s : Stats) (bs : List Cell) → Adds no_blocks bs t → Counts s bs → same_stats t s ≡ true
unfolding same_stats
same_stats-Counts t s bs a c =
    rw (eq→== t.total_size s.total_size (omega (arith, a.size, c.size))) (
      rw (eq→== t.used_size s.used_size (omega (arith, a.taken, c.taken))) (
        rw (eq→== t.free_size s.free_size (omega (arith, a.left, c.left))) (
          rw (eq→== t.total_blocks s.total_blocks (omega (arith, a.blocks, c.blocks)))
            (eq→== t.free_blocks s.free_blocks (omega (arith, a.frees, c.frees))))))

check_cells :
    (fuel n : ℕ) (cells : List Cell) (l : Layout)
    → IsLayout n cells l
    → 0 < total cells
    → total cells < fuel
    → judge l.1 (check_from fuel l.0 (first cells) no_blocks) ≡ some true
check_cells fuel n [] l v h enough = absurd (omega arith)
check_cells fuel n (b ∷ bs) l v h enough =
    let short : length (b ∷ bs) ≤ total (b ∷ bs) =
      length-le-total n (b ∷ bs) (n + total (b ∷ bs)) v.tiles in
    let (t, e, a) =
      check_from-Adds fuel l.0 none b bs no_blocks (omega (arith, short)) v.describes tt
        (omega (arith, v.small)) (omega (arith, v.small, short)) (omega arith) (omega arith) in
    ap (judge l.1) e ∙ ap some (same_stats-Counts t l.1 (b ∷ bs) a v.counts)

-- On a heap whose block list is right, the walk of heap_check comes to its end within as many
-- rounds as the heap has bytes, and heap_check returns true.
pub check-Ready :
    {S : Type 0} (fuel n s : ℕ) (hs : List Cell) (h : Heap S)
    → Ready n s hs h
    → s < fuel
    → check fuel h ≡ some true
unfolding check
check-Ready fuel n s hs h r enough =
    let v = r.holds in
    ap (λ a. judge h.statistics (check_from fuel h.headers a no_blocks))
      (r.start
        ∙ sym (
            starts n v.cells (n + total v.cells) v.layout.tiles
              (omega (arith, v.whole, r.some_bytes))))
    ∙ check_cells fuel n v.cells (layout h) v.layout (omega (arith, v.whole, r.some_bytes))
        (omega (arith, v.whole))
