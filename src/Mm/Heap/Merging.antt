-- ===== src/Mm/Heap/Merging.antt =====
-- merge_free_blocks and heap_free of kernel/src/mm/heap.c on a list of blocks.
use alephos.Prelude.{ℕ, zero, suc, ◌+◌, ◌≤◌, ◌<◌}
use alephos.Prelude.{◌≡◌, refl, sym, ap, ◌∙◌, subst, inl, inr, true, ◌||◌}
use alephos.Prelude.{Option, none, some, List, [], ◌∷◌, ◌++◌, arith}
use alephos.Prelude.{if◌then◌else◌, Bool-cases}
use alephos.Prelude.{length, length-append}
use alephos.Prelude.{u32}
use alephos.Core.Process.Removal.{Yields}
use alephos.Mm.Heap.{
  Header, Headers, Stats, Layout, store, set_prev, absorb, leads_free, merge_free_blocks,
  heap_block_magic,
}
use alephos.Mm.Heap.Cells.{
  Cell, first, is_nil, Describes, Tiles, header, before_of, store-same, store-other,
  Describes-store, set_prev-below, Describes-set_prev,
}
use alephos.Mm.Heap.Layouts.{
  IsLayout, AtBlock, at_block, total-append, IsLayout-plug, Counts-plug, total, used, unused,
  free_count, parts, length-le-total, free_count-append,
}

-- A block and the one behind it as one.
abbrev pub join : Cell → Cell → Cell
join b y = record b { size = b.size + y.size }

pub absorb-IsLayout :
    (n : ℕ) (xs : List Cell) (b y : Cell) (ys : List Cell) (l : Layout)
    → IsLayout n (xs ++ (b ∷ (y ∷ ys))) l
    → b.free ≡ true
    → y.free ≡ true
    → IsLayout n (xs ++ (join b y ∷ ys)) (absorb b.addr y.addr l)
unfolding absorb
absorb-IsLayout n xs b y ys l v fb fy =
    let k : AtBlock n xs b (y ∷ ys) l = at_block n xs b (y ∷ ys) l v in
    let all : List Cell = xs ++ (b ∷ (y ∷ ys)) in
    let e : ℕ = n + total all in
    let p : Option ℕ = before_of none xs in
    let blocks : length all ≤ total all = length-le-total n all e v.tiles in
    let sums : (used all + unused all ≡ total all) × (free_count all ≤ length all) = parts all in
    let h : Header = record (l.0 b.addr) {
      size = u32 ((l.0 b.addr).size + (l.0 y.addr).size);
      last = (l.0 b.addr).last || (l.0 y.addr).last;
      next = (l.0 y.addr).next;
    } in
    let s : ℕ = b.addr + b.size in
    let m1 : Headers = store l.0 b.addr h in
    let t : Tiles (s + y.size) ys e = k.area.2.2 in
    let wide : u32 (b.size + y.size) ≡ b.size + y.size =
      omega (arith, v.small, total-append xs (b ∷ (y ∷ ys))) in
    let at : h ≡ header p (join b y) ys =
      rw (k.rest.0, k.rest.1.0)
        (ap
          (λ k.
            let r : Header = record {
              magic = heap_block_magic;
              size = k;
              free = b.free;
              last = is_nil ys;
              next = first ys;
              prev = p;
            } in
            r)
          wide) in
    let next : (l.0 y.addr).next ≡ first ys = ap (λ x. x.next) k.rest.1.0 in
    let counted : Stats = (absorb b.addr y.addr l).1 in
    let after : Option ℕ → Layout = λ o. (set_prev m1 o b.addr, counted) in
    subst (λ o. IsLayout n (xs ++ (join b y ∷ ys)) (after o)) (sym next)
      (IsLayout-plug n xs b (join b y) (y ∷ ys) ys l (after (first ys)) v refl
        (λ a low.
          set_prev-below m1 (s + y.size) ys e b.addr a t (omega arith)
          ∙ store-other l.0 b.addr a h (λ x. absurd (omega arith)))
        (
          set_prev-below m1 (s + y.size) ys e b.addr b.addr t (omega arith)
              ∙ store-same l.0 b.addr h
              ∙ at,
          (Describes-set_prev m1 (some y.addr) (s + y.size) ys e b.addr t (
              Describes-store l.0 (some y.addr) (s + y.size) ys e b.addr h (omega arith) t
                k.rest.1.1)),
        )
        (refl, omega arith, subst (λ k. Tiles k ys e) (omega arith) t) (omega arith)
        (Counts-plug l.1 counted xs (b ∷ (y ∷ ys)) (join b y ∷ ys) v.counts (omega arith)
          (ground arith) (ground arith)
          (omega (arith, v.counts.blocks, v.small, length-append xs (b ∷ (y ∷ ys))))
          (ground (arith, v.counts.frees, v.small, free_count-append xs (b ∷ (y ∷ ys))))))

-- What the loop makes of a block and those behind it.
abbrev pub merged : Cell → List Cell → List Cell
merged b [] = b ∷ []
merged b (y ∷ ys) = if y.free then merged (join b y) ys else b ∷ (y ∷ ys)

leads_free-first :
    (m : Headers) (p : Option ℕ) (ys : List Cell)
    → Describes m p ys
    → leads_free m (first ys)
      ≡ elim ys as (λ _. Option ℕ) [ [] ↦ none | y ∷ zs ↦ (if y.free then some y.addr else none) ]
unfolding leads_free
leads_free-first m p [] d = refl
leads_free-first m p (y ∷ ys) d = rw d.0 refl

-- One round of the loop, the block to merge given.
abbrev round : ℕ → ℕ → Layout → Option ℕ → Option Layout
round fuel a l o = elim o [ none ↦ some l | some b ↦ merge_free_blocks fuel a (absorb a b l) ]

pub merge-IsLayout :
    (fuel n : ℕ) (xs : List Cell) (b : Cell) (ys : List Cell) (l : Layout)
    → length ys < fuel
    → IsLayout n (xs ++ (b ∷ ys)) l
    → b.free ≡ true
    → Yields (λ l'. IsLayout n (xs ++ merged b ys) l') (merge_free_blocks fuel b.addr l)
unfolding merge_free_blocks
merge-IsLayout zero n xs b ys l f v fb = absurd (omega arith)
merge-IsLayout (suc fuel) n xs b [] l f v fb =
    let next : (l.0 b.addr).next ≡ none = ap (λ h. h.next) (at_block n xs b [] l v).rest.0 in
    let none_there : leads_free l.0 (l.0 b.addr).next ≡ none =
      ap (leads_free l.0) next ∙ leads_free-first l.0 none [] tt in
    subst (λ o. Yields (λ l'. IsLayout n (xs ++ (b ∷ [])) l') (round fuel b.addr l o))
      (sym none_there) v
merge-IsLayout (suc fuel) n xs b (y ∷ ys) l f v fb =
    let k : AtBlock n xs b (y ∷ ys) l = at_block n xs b (y ∷ ys) l v in
    let next : (l.0 b.addr).next ≡ some y.addr = ap (λ h. h.next) k.rest.0 in
    let led : leads_free l.0 (l.0 b.addr).next ≡ (if y.free then some y.addr else none) =
      ap (leads_free l.0) next ∙ leads_free-first l.0 (some b.addr) (y ∷ ys) k.rest.1 in
    elim (Bool-cases y.free) [
      | inl fy ↦
          let here : leads_free l.0 (l.0 b.addr).next ≡ some y.addr =
            led ∙ ap (λ c. if c then some y.addr else none) fy in
          let same : merged b (y ∷ ys) ≡ merged (join b y) ys =
            ap (λ c. if c then merged (join b y) ys else b ∷ (y ∷ ys)) fy in
          subst
            (λ o. Yields (λ l'. IsLayout n (xs ++ merged b (y ∷ ys)) l') (round fuel b.addr l o))
            (sym here)
            (subst
              (λ cs.
                Yields (λ l'. IsLayout n (xs ++ cs) l')
                  (merge_free_blocks fuel b.addr (absorb b.addr y.addr l)))
              (sym same)
              (merge-IsLayout fuel n xs (join b y) ys (absorb b.addr y.addr l) (omega arith)
                (absorb-IsLayout n xs b y ys l v fb fy) fb))
      | inr fy ↦
          let here : leads_free l.0 (l.0 b.addr).next ≡ none =
            led ∙ ap (λ c. if c then some y.addr else none) fy in
          let same : merged b (y ∷ ys) ≡ b ∷ (y ∷ ys) =
            ap (λ c. if c then merged (join b y) ys else b ∷ (y ∷ ys)) fy in
          subst
            (λ o. Yields (λ l'. IsLayout n (xs ++ merged b (y ∷ ys)) l') (round fuel b.addr l o))
            (sym here) (subst (λ cs. IsLayout n (xs ++ cs) l) (sym same) v)
    ]
