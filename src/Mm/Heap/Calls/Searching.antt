-- ===== src/Mm/Heap/Calls/Searching.antt =====
-- find_free_block and the walk to the last block of kernel/src/mm/heap.c on a list of blocks, and
-- what is done with the block that is found.
use alephos.Prelude.{ℕ, zero, suc, ◌+◌, ◌^◌, ◌≤◌, ◌<◌}
use alephos.Prelude.{◌≡◌, refl, sym, ap, subst, inl, inr, true, false, ◌&&◌}
use alephos.Prelude.{Option, none, some, List, [], ◌∷◌, ◌++◌, arith}
use alephos.Prelude.{ltb, leb, if◌then◌else◌, Bool-cases, ltb→lt}
use alephos.Prelude.{length}
use alephos.Prelude.{u64}
use alephos.Mm.Heap.{Headers, Layout, find_free_block, find_last, split_block, take_block}
use alephos.Mm.Heap.Cells.{Cell, first, is_nil, before_of, Describes}
use alephos.Mm.Heap.Splitting.{front, back, split_block-none}
use alephos.Mm.Heap.Layouts.{
  IsLayout, AtBlock, at_block, total, total-append, split-IsLayout, take-IsLayout,
}
use alephos.Mm.Heap.Freeing.{held, held-append, held-free, Holds}

-- A free block with room for `size` bytes stands at this place.
pub record Fits (bs : List Cell) (size : ℕ) (a : ℕ) : Type 0 where
  pub before : List Cell
  pub cell : Cell
  pub after : List Cell
  pub place : bs ≡ before ++ (cell ∷ after)
  pub at : cell.addr ≡ a
  pub free : cell.free ≡ true
  pub room : size + 28 ≤ cell.size

-- No block is free with room for `size` bytes.
abbrev pub NoneFits : List Cell → ℕ → Type 0
NoneFits [] size = Unit {0}
NoneFits (b ∷ bs) size = ((b.free && leb (size + 28) b.size) ≡ false) × NoneFits bs size

Fits-cons : (b : Cell) (bs : List Cell) (size a : ℕ) → Fits bs size a → Fits (b ∷ bs) size a
Fits-cons b bs size a f = record {
  before = b ∷ f.before;
  cell = f.cell;
  after = f.after;
  place = ap (λ l. b ∷ l) f.place;
  at = f.at;
  free = f.free;
  room = f.room;
}

-- What the search finds: a block that fits, or that none does.
abbrev pub Finds : List Cell → ℕ → Option (Option ℕ) → Type 0
Finds bs size none = ⊥
Finds bs size (some none) = NoneFits bs size
Finds bs size (some (some a)) = Fits bs size a

Finds-cons :
    (b : Cell) (bs : List Cell) (size : ℕ) (o : Option (Option ℕ))
    → (b.free && leb (size + 28) b.size) ≡ false
    → Finds bs size o
    → Finds (b ∷ bs) size o
Finds-cons b bs size none e f = f
Finds-cons b bs size (some none) e f = (e, f)
Finds-cons b bs size (some (some a)) e f = Fits-cons b bs size a f

Finds-next :
    (bs : List Cell) (size : ℕ) (o : Option (Option ℕ))
    → Finds bs size o
    → Finds bs size (if is_nil bs then some none else o)
Finds-next [] size o f = tt
Finds-next (b ∷ bs) size o f = f

is_nil-snoc : (bs : List Cell) (w : Cell) → is_nil (bs ++ (w ∷ [])) ≡ false
is_nil-snoc [] w = refl
is_nil-snoc (b ∷ bs) w = refl

pub find_free_block-Finds :
    (fuel : ℕ) (m : Headers) (p : Option ℕ) (bs : List Cell) (size : ℕ)
    → length bs < fuel
    → size + 28 < 2 ^ 64
    → Describes m p bs
    → Finds bs size (find_free_block fuel m (first bs) size)
unfolding find_free_block
find_free_block-Finds zero m p bs size f h d = absurd (omega arith)
find_free_block-Finds (suc fuel) m p [] size f h d = tt
find_free_block-Finds (suc fuel) m p (b ∷ bs) size f h d =
    let need : u64 (size + 28) ≡ size + 28 = omega arith in
    rw (d.0, need)
      (elim (Bool-cases (b.free && leb (size + 28) b.size)) [
        | inl e ↦ rw e record {
          before = [];
          cell = b;
          after = bs;
          place = refl;
          at = refl;
          free = ground (arith, e);
          room = ground (arith, e);
        }
        | inr e ↦ rw e (
            Finds-cons b bs size
              (if is_nil bs then some none else find_free_block fuel m (first bs) size) e
              (Finds-next bs size (find_free_block fuel m (first bs) size)
                (find_free_block-Finds fuel m (some b.addr) bs size (omega arith) h d.1)))
      ])

pub find_last-snoc :
    (fuel : ℕ) (m : Headers) (p : Option ℕ) (bs : List Cell) (w : Cell)
    → length bs < fuel
    → Describes m p (bs ++ (w ∷ []))
    → find_last fuel m (first (bs ++ (w ∷ []))) ≡ some w.addr
unfolding find_last
find_last-snoc zero m p bs w f d = absurd (omega arith)
find_last-snoc (suc fuel) m p [] w f d = rw d.0 refl
find_last-snoc (suc fuel) m p (b ∷ bs) w f d =
    rw (d.0, is_nil-snoc bs w) (find_last-snoc fuel m (some b.addr) bs w (omega arith) d.1)

-- A block of at least `size` bytes more is in use, and starts at this address.
pub record Gains (n s : ℕ) (hs : List Cell) (size a : ℕ) (l : Layout) : Type 0 where
  pub before : List Cell
  pub cell : Cell
  pub after : List Cell
  pub place : hs ≡ before ++ after
  pub at : cell.addr ≡ a
  pub room : size + 28 ≤ cell.size
  pub holds : Holds n s (before ++ (cell ∷ after)) l

take-Gains_at :
    (n size : ℕ) (xs : List Cell) (b : Cell) (ys : List Cell) (l : Layout)
    → IsLayout n (xs ++ (b ∷ ys)) l
    → b.free ≡ true
    → size + 28 ≤ b.size
    → Gains n
        (total (xs ++ (b ∷ ys)))
        (held xs ++ held ys)
        size
        b.addr
        (take_block b.addr (split_block b.addr size l))
take-Gains_at n size xs b ys l v f room = elim (Bool-cases (ltb b.size (size + 56))) [
  | inl tight ↦
      let k : AtBlock n xs b ys l = at_block n xs b ys l v in
      let b' : Cell = record b { free = false } in
      subst
        (λ r.
          Gains n (total (xs ++ (b ∷ ys))) (held xs ++ held ys) size b.addr (take_block b.addr r))
        (sym (
          split_block-none l.0 (before_of none xs) b ys (n + total (xs ++ (b ∷ ys))) size k.area
            k.rest k.narrow k.inside l.1 room (ltb→lt b.size (size + 56) tight)))
        record {
          before = held xs;
          cell = b';
          after = held ys;
          place = refl;
          at = refl;
          room = room;
          holds = record {
            cells = xs ++ (b' ∷ ys);
            whole = omega (arith, total-append xs (b' ∷ ys), total-append xs (b ∷ ys));
            layout = take-IsLayout n xs b ys l v f;
            in_use = held-append xs (b' ∷ ys);
          };
        }
  | inr wide ↦
      let b' : Cell = record (front b size) { free = false } in
      let large : size + 56 ≤ b.size = ground arith in
      record {
        before = held xs;
        cell = b';
        after = held ys;
        place = refl;
        at = refl;
        room = omega arith;
        holds = record {
          cells = xs ++ (b' ∷ (back b size ∷ ys));
          whole =
              omega (arith, total-append xs (b' ∷ (back b size ∷ ys)), total-append xs (b ∷ ys));
          layout =
              take-IsLayout n xs (front b size) (back b size ∷ ys) (split_block b.addr size l)
                (split-IsLayout n xs b ys size l v f large) f;
          in_use = held-append xs (b' ∷ (back b size ∷ ys));
        };
      }
]

pub take-Gains :
    (n size a : ℕ) (bs : List Cell) (l : Layout)
    → IsLayout n bs l
    → Fits bs size a
    → Gains n (total bs) (held bs) size a (take_block a (split_block a size l))
take-Gains n size a bs l v f =
    subst (λ k. Gains n (total bs) (held bs) size k (take_block k (split_block k size l))) f.at
      (subst
        (λ m.
          Gains n (total m) (held m) size f.cell.addr
            (take_block f.cell.addr (split_block f.cell.addr size l)))
        (sym f.place)
        (subst
          (λ hs.
            Gains n (total (f.before ++ (f.cell ∷ f.after))) hs size f.cell.addr
              (take_block f.cell.addr (split_block f.cell.addr size l)))
          (sym (held-free f.before f.cell f.after f.free))
          (take-Gains_at n size f.before f.cell f.after l (subst (λ m. IsLayout n m l) f.place v)
            f.free f.room)))
