-- ===== src/Mm/Heap/Layouts.antt =====
-- The list of blocks and the statistics of kernel/src/mm/heap.c: what is true between two calls.
use alephos.Prelude.{ℕ, ◌+◌, ◌^◌, ◌≤◌, ◌<◌}
use alephos.Prelude.{◌≡◌, refl, sym, ap, ◌∙◌, subst, Bool, true, false}
use alephos.Prelude.{Option, none, some, List, [], ◌∷◌, ◌++◌, arith}
use alephos.Prelude.{if◌then◌else◌}
use alephos.Prelude.{length, length-append}
use alephos.Mm.Heap.{Header, Stats, Layout, store, split_block, take_block, give_block}
use alephos.Mm.Heap.Cells.{
  Cell, Describes, Tiles, header, before_of, store-same, store-other, Describes-focus, Tiles-focus,
  Describes-plug, Tiles-plug, Describes-store,
}
use alephos.Mm.Heap.Splitting.{
  front, back, one_more, split_headers, split_block-eq, split_headers-Describes,
  split_headers-below, split-Tiles,
}

abbrev pub total : List Cell → ℕ
total [] = 0
total (b ∷ bs) = b.size + total bs

abbrev pub used : List Cell → ℕ
used [] = 0
used (b ∷ bs) = (if b.free then 0 else b.size) + used bs

abbrev pub unused : List Cell → ℕ
unused [] = 0
unused (b ∷ bs) = (if b.free then b.size else 0) + unused bs

abbrev pub free_count : List Cell → ℕ
free_count [] = 0
free_count (b ∷ bs) = (if b.free then 1 else 0) + free_count bs

-- The statistics are those of these blocks.
pub record Counts (s : Stats) (bs : List Cell) : Type 0 where
  pub size : s.total_size ≡ total bs
  pub taken : s.used_size ≡ used bs
  pub left : s.free_size ≡ unused bs
  pub blocks : s.total_blocks ≡ length bs
  pub frees : s.free_blocks ≡ free_count bs

-- The heap lies from `n` on, holds less than 4 GiB, and its blocks are these.
pub record IsLayout (n : ℕ) (bs : List Cell) (l : Layout) : Type 0 where
  pub describes : Describes l.0 none bs
  pub tiles : Tiles n bs (n + total bs)
  pub fits : n + 2 ^ 32 ≤ 2 ^ 64
  pub small : total bs < 2 ^ 32
  pub counts : Counts l.1 bs

pub total-append : (xs ys : List Cell) → total (xs ++ ys) ≡ total xs + total ys
total-append [] ys = omega arith
total-append (x ∷ xs) ys = omega (arith, total-append xs ys)

pub used-append : (xs ys : List Cell) → used (xs ++ ys) ≡ used xs + used ys
used-append [] ys = omega arith
used-append (x ∷ xs) ys = omega (arith, used-append xs ys)

pub unused-append : (xs ys : List Cell) → unused (xs ++ ys) ≡ unused xs + unused ys
unused-append [] ys = omega arith
unused-append (x ∷ xs) ys = omega (arith, unused-append xs ys)

pub free_count-append : (xs ys : List Cell) → free_count (xs ++ ys) ≡ free_count xs + free_count ys
free_count-append [] ys = omega arith
free_count-append (x ∷ xs) ys = omega (arith, free_count-append xs ys)

pub parts : (bs : List Cell) → (used bs + unused bs ≡ total bs) × (free_count bs ≤ length bs)
parts [] = (omega arith, omega arith)
parts (b ∷ bs) = let (a, c) = parts bs in (ground (arith, a), ground (arith, c))

pub length-le-total : (n : ℕ) (bs : List Cell) (e : ℕ) → Tiles n bs e → length bs ≤ total bs
length-le-total n [] e t = omega arith
length-le-total n (b ∷ bs) e t = omega (arith, t.1, length-le-total (n + b.size) bs e t.2)

-- Every total over the blocks when some of them are replaced.
pub Counts-plug :
    (s s' : Stats) (xs bs bs' : List Cell)
    → Counts s (xs ++ bs)
    → (s'.total_size + total bs ≡ s.total_size + total bs')
    → (s'.used_size + used bs ≡ s.used_size + used bs')
    → (s'.free_size + unused bs ≡ s.free_size + unused bs')
    → (s'.total_blocks + length bs ≡ s.total_blocks + length bs')
    → (s'.free_blocks + free_count bs ≡ s.free_blocks + free_count bs')
    → Counts s' (xs ++ bs')
Counts-plug s s' xs bs bs' c e1 e2 e3 e4 e5 = record {
  size = omega (arith, c.size, total-append xs bs, total-append xs bs');
  taken = omega (arith, c.taken, used-append xs bs, used-append xs bs');
  left = omega (arith, c.left, unused-append xs bs, unused-append xs bs');
  blocks = omega (arith, c.blocks, length-append xs bs, length-append xs bs');
  frees = omega (arith, c.frees, free_count-append xs bs, free_count-append xs bs');
}

-- What stands from a block on is replaced by as many bytes of blocks.
pub IsLayout-plug :
    (n : ℕ) (xs : List Cell) (b b' : Cell) (ys ys' : List Cell) (l l' : Layout)
    → IsLayout n (xs ++ (b ∷ ys)) l
    → b'.addr ≡ b.addr
    → ((a : ℕ) → a < b.addr → l'.0 a ≡ l.0 a)
    → Describes l'.0 (before_of none xs) (b' ∷ ys')
    → Tiles b.addr (b' ∷ ys') (n + total (xs ++ (b ∷ ys)))
    → total (b' ∷ ys') ≡ total (b ∷ ys)
    → Counts l'.1 (xs ++ (b' ∷ ys'))
    → IsLayout n (xs ++ (b' ∷ ys')) l'
IsLayout-plug n xs b b' ys ys' l l' v at same d t e c =
    let whole : total (xs ++ (b' ∷ ys')) ≡ total (xs ++ (b ∷ ys)) =
      omega (arith, total-append xs (b ∷ ys), total-append xs (b' ∷ ys')) in
    record {
      describes =
          Describes-plug l.0 l'.0 none n xs b b' ys ys' (n + total (xs ++ (b ∷ ys))) at same v.tiles
            v.describes d;
      tiles =
          subst (λ k. Tiles n (xs ++ (b' ∷ ys')) (n + k)) (sym whole)
            (Tiles-plug n xs b b' ys ys' (n + total (xs ++ (b ∷ ys))) (n + total (xs ++ (b ∷ ys)))
              v.tiles t);
      fits = v.fits;
      small = omega (arith, v.small);
      counts = c;
    }

-- What is known of the block at the front of the rest.
pub record AtBlock (n : ℕ) (xs : List Cell) (b : Cell) (ys : List Cell) (l : Layout) : Type 0 where
  pub rest : Describes l.0 (before_of none xs) (b ∷ ys)
  pub area : Tiles b.addr (b ∷ ys) (n + total (xs ++ (b ∷ ys)))
  pub low : n ≤ b.addr
  pub narrow : b.size < 2 ^ 32
  pub inside : n + total (xs ++ (b ∷ ys)) ≤ 2 ^ 64

pub at_block :
    (n : ℕ) (xs : List Cell) (b : Cell) (ys : List Cell) (l : Layout)
    → IsLayout n (xs ++ (b ∷ ys)) l
    → AtBlock n xs b ys l
at_block n xs b ys l v =
    let (low, area) = Tiles-focus n xs b ys (n + total (xs ++ (b ∷ ys))) v.tiles in
    record {
      rest = Describes-focus l.0 none xs b ys v.describes;
      area = area;
      low = low;
      narrow = omega (arith, v.small, total-append xs (b ∷ ys));
      inside = omega (arith, v.small, v.fits);
    }

-- A free block is split into a block of `size` bytes and the rest.
pub split-IsLayout :
    (n : ℕ) (xs : List Cell) (b : Cell) (ys : List Cell) (size : ℕ) (l : Layout)
    → IsLayout n (xs ++ (b ∷ ys)) l
    → b.free ≡ true
    → size + 56 ≤ b.size
    → IsLayout n (xs ++ (front b size ∷ (back b size ∷ ys))) (split_block b.addr size l)
split-IsLayout n xs b ys size l v f room =
    let k : AtBlock n xs b ys l = at_block n xs b ys l v in
    let e : ℕ = n + total (xs ++ (b ∷ ys)) in
    let p : Option ℕ = before_of none xs in
    let l' : Layout = (split_headers l.0 p b size ys, one_more l.1) in
    let blocks : length (xs ++ (b ∷ ys)) ≤ total (xs ++ (b ∷ ys)) =
      length-le-total n (xs ++ (b ∷ ys)) e v.tiles in
    let frees : free_count (xs ++ (b ∷ ys)) ≤ length (xs ++ (b ∷ ys)) =
      (parts (xs ++ (b ∷ ys))).1 in
    subst (λ r. IsLayout n (xs ++ (front b size ∷ (back b size ∷ ys))) r)
      (sym (split_block-eq l.0 p b ys e size k.area k.rest k.narrow k.inside l.1 room))
      (IsLayout-plug n xs b (front b size) ys (back b size ∷ ys) l l' v refl
        (split_headers-below l.0 p b ys e size k.area k.rest k.narrow k.inside)
        (split_headers-Describes l.0 p b ys e size k.area k.rest k.narrow k.inside room)
        (split-Tiles l.0 p b ys e size k.area k.rest k.narrow k.inside room) (omega arith)
        (Counts-plug l.1 l'.1 xs (b ∷ ys) (front b size ∷ (back b size ∷ ys)) v.counts (omega arith)
          (ground arith) (ground arith) (omega (arith, v.counts.blocks, v.small))
          (ground (arith, v.counts.frees, v.small))))

-- The header of one block changes in its `free` bit alone.
free-IsLayout :
    (n : ℕ) (xs : List Cell) (b : Cell) (ys : List Cell) (f : Bool) (l : Layout) (s : Stats)
    → IsLayout n (xs ++ (b ∷ ys)) l
    → Counts s (xs ++ (record b { free = f } ∷ ys))
    → IsLayout n
        (xs ++ (record b { free = f } ∷ ys))
        (store l.0 b.addr (record (l.0 b.addr) { free = f }), s)
free-IsLayout n xs b ys f l s v c =
    let k : AtBlock n xs b ys l = at_block n xs b ys l v in
    let e : ℕ = n + total (xs ++ (b ∷ ys)) in
    let h : Header = record (l.0 b.addr) { free = f } in
    let d : h ≡ header (before_of none xs) (record b { free = f }) ys =
      ap (λ (x : Header). let y : Header = record x { free = f } in y) k.rest.0 in
    IsLayout-plug n xs b (record b { free = f }) ys ys l (store l.0 b.addr h, s) v refl
      (λ a low. store-other l.0 b.addr a h (λ x. absurd (omega arith)))
      (
        store-same l.0 b.addr h ∙ d,
        Describes-store l.0 (some b.addr) (b.addr + b.size) ys e b.addr h (omega (arith, k.area.1))
            k.area.2 k.rest.1,
      )
      k.area refl c

pub take-IsLayout :
    (n : ℕ) (xs : List Cell) (b : Cell) (ys : List Cell) (l : Layout)
    → IsLayout n (xs ++ (b ∷ ys)) l
    → b.free ≡ true
    → IsLayout n (xs ++ (record b { free = false } ∷ ys)) (take_block b.addr l)
unfolding take_block
take-IsLayout n xs b ys l v f =
    let k : AtBlock n xs b ys l = at_block n xs b ys l v in
    let size : (l.0 b.addr).size ≡ b.size = ap (λ h. h.size) k.rest.0 in
    let all : List Cell = xs ++ (b ∷ ys) in
    let blocks : length all ≤ total all = length-le-total n all (n + total all) v.tiles in
    let sums : (used all + unused all ≡ total all) × (free_count all ≤ length all) = parts all in
    free-IsLayout n xs b ys false l _ v (
      Counts-plug l.1 _ xs (b ∷ ys) (record b { free = false } ∷ ys) v.counts refl
        (ground (arith, v.counts.taken, v.small))
        (ground (arith, v.counts.left, v.small, unused-append xs (b ∷ ys))) refl
        (ground (arith, v.counts.frees, v.small, free_count-append xs (b ∷ ys))))

pub give-IsLayout :
    (n : ℕ) (xs : List Cell) (b : Cell) (ys : List Cell) (l : Layout)
    → IsLayout n (xs ++ (b ∷ ys)) l
    → b.free ≡ false
    → IsLayout n (xs ++ (record b { free = true } ∷ ys)) (give_block b.addr l)
unfolding give_block
give-IsLayout n xs b ys l v f =
    let k : AtBlock n xs b ys l = at_block n xs b ys l v in
    let size : (l.0 b.addr).size ≡ b.size = ap (λ h. h.size) k.rest.0 in
    let all : List Cell = xs ++ (b ∷ ys) in
    let blocks : length all ≤ total all = length-le-total n all (n + total all) v.tiles in
    let sums : (used all + unused all ≡ total all) × (free_count all ≤ length all) = parts all in
    free-IsLayout n xs b ys true l _ v (
      Counts-plug l.1 _ xs (b ∷ ys) (record b { free = true } ∷ ys) v.counts refl
        (ground (arith, v.counts.taken, v.small, used-append xs (b ∷ ys)))
        (ground (arith, v.counts.left, v.small)) refl (ground (arith, v.counts.frees, v.small)))
