-- ===== src/Mm/Heap/Cells.antt =====
-- The heap of kernel/src/mm/heap.c as a list of cells: what the headers say, and how the list may be
-- taken apart at a block.
use alephos.Prelude.{ℕ, ◌+◌, ◌≤◌, ◌<◌}
use alephos.Prelude.{◌≡◌, refl, sym, ap, ◌∙◌, subst, ◌≢◌, Bool, true, false}
use alephos.Prelude.{Option, none, some, List, [], ◌∷◌, ◌++◌, arith}
use alephos.Prelude.{eq→==, ne→==}
use alephos.Mm.Heap.{Header, Headers, heap_block_magic, header_size, store, set_prev}

-- A block: its address, its size with the header, and whether it is free.
pub record Cell : Type 0 where
  pub addr : ℕ
  pub size : ℕ
  pub free : Bool

abbrev pub first : List Cell → Option ℕ
first [] = none
first (b ∷ bs) = some b.addr

abbrev pub is_nil : List Cell → Bool
is_nil [] = true
is_nil (b ∷ bs) = false

-- The header that a block has between these.
abbrev pub header : Option ℕ → Cell → List Cell → Header
header before b bs = record {
  magic = heap_block_magic;
  size = b.size;
  free = b.free;
  last = is_nil bs;
  next = first bs;
  prev = before;
}

-- The headers are those of these blocks, one after another.
abbrev pub Describes : Headers → Option ℕ → List Cell → Type 0
Describes m before [] = Unit {0}
Describes m before (b ∷ bs) = (m b.addr ≡ header before b bs) × Describes m (some b.addr) bs

-- The blocks fill the memory from `n` to `e` without a gap, each with room for its header.
abbrev pub Tiles : ℕ → List Cell → ℕ → Type 0
Tiles n [] e = n ≡ e
Tiles n (b ∷ bs) e = (b.addr ≡ n) × (header_size ≤ b.size) × Tiles (n + b.size) bs e

abbrev pub before_of : Option ℕ → List Cell → Option ℕ
before_of p [] = p
before_of p (x ∷ xs) = before_of (some x.addr) xs

pub store-same : (m : Headers) (a : ℕ) (h : Header) → store m a h a ≡ h
unfolding store
store-same m a h = rw (eq→== a a refl) refl

pub store-other : (m : Headers) (a b : ℕ) (h : Header) → a ≢ b → store m a h b ≡ m b
unfolding store
store-other m a b h n = rw (ne→== a b n) refl

pub Tiles-le : (n : ℕ) (bs : List Cell) (e : ℕ) → Tiles n bs e → n ≤ e
Tiles-le n [] e t = omega arith
Tiles-le n (b ∷ bs) e t = omega (arith, Tiles-le (n + b.size) bs e t.2)

-- Headers that agree from `n` on describe the same blocks from `n` on.
pub Describes-above :
    (m m' : Headers) (before : Option ℕ) (n : ℕ) (bs : List Cell) (e : ℕ)
    → ((a : ℕ) → n ≤ a → m' a ≡ m a)
    → Tiles n bs e
    → Describes m before bs
    → Describes m' before bs
Describes-above m m' before n [] e same t d = tt
Describes-above m m' before n (b ∷ bs) e same t d = (
  same b.addr (omega (arith, t.0)) ∙ d.0,
  Describes-above m m' (some b.addr) (n + b.size) bs e (λ a h. same a (omega arith)) t.2 d.1,
)

-- The blocks from `b` on, where others stand before it.
pub Describes-focus :
    (m : Headers) (p : Option ℕ) (xs : List Cell) (b : Cell) (ys : List Cell)
    → Describes m p (xs ++ (b ∷ ys))
    → Describes m (before_of p xs) (b ∷ ys)
Describes-focus m p [] b ys d = d
Describes-focus m p (x ∷ xs) b ys d = Describes-focus m (some x.addr) xs b ys d.1

pub Tiles-focus :
    (n : ℕ) (xs : List Cell) (b : Cell) (ys : List Cell) (e : ℕ)
    → Tiles n (xs ++ (b ∷ ys)) e
    → (n ≤ b.addr) × Tiles b.addr (b ∷ ys) e
Tiles-focus n [] b ys e t =
    (omega (arith, t.0), (refl, t.1, subst (λ k. Tiles (k + b.size) ys e) (sym t.0) t.2))
Tiles-focus n (x ∷ xs) b ys e t =
    let (above, rest) = Tiles-focus (n + x.size) xs b ys e t.2 in (omega arith, rest)

-- What stands from `b` on may be replaced by blocks that begin at the same address, if the
-- headers before it are kept.
pub Describes-plug :
    (m m' : Headers) (p : Option ℕ) (n : ℕ) (xs : List Cell) (b b' : Cell) (ys ys' : List Cell)
    (e : ℕ)
    → b'.addr ≡ b.addr
    → ((a : ℕ) → a < b.addr → m' a ≡ m a)
    → Tiles n (xs ++ (b ∷ ys)) e
    → Describes m p (xs ++ (b ∷ ys))
    → Describes m' (before_of p xs) (b' ∷ ys')
    → Describes m' p (xs ++ (b' ∷ ys'))
Describes-plug m m' p n [] b b' ys ys' e at same t d d' = d'
Describes-plug m m' p n (x ∷ xs) b b' ys ys' e at same t d d' = (
  same x.addr (omega (arith, (Tiles-focus (n + x.size) xs b ys e t.2).0)) ∙ d.0 ∙ same_header xs,
  Describes-plug m m' (some x.addr) (n + x.size) xs b b' ys ys' e at same t.2 d.1 d',
)
  where
    same_header : (zs : List Cell) → header p x (zs ++ (b ∷ ys)) ≡ header p x (zs ++ (b' ∷ ys'))
    same_header [] = rw at refl
    same_header (z ∷ zs) = refl

pub Tiles-plug :
    (n : ℕ) (xs : List Cell) (b b' : Cell) (ys ys' : List Cell) (e e' : ℕ)
    → Tiles n (xs ++ (b ∷ ys)) e
    → Tiles b.addr (b' ∷ ys') e'
    → Tiles n (xs ++ (b' ∷ ys')) e'
Tiles-plug n [] b b' ys ys' e e' t t' = subst (λ k. Tiles k (b' ∷ ys') e') t.0 t'
Tiles-plug n (x ∷ xs) b b' ys ys' e e' t t' =
    (t.0, t.1, Tiles-plug (n + x.size) xs b b' ys ys' e e' t.2 t')

-- A header below the blocks may change.
pub Describes-store :
    (m : Headers) (p : Option ℕ) (n : ℕ) (bs : List Cell) (e q : ℕ) (h : Header)
    → q < n
    → Tiles n bs e
    → Describes m p bs
    → Describes (store m q h) p bs
Describes-store m p n bs e q h below t d =
    Describes-above m (store m q h) p n bs e
      (λ a k. store-other m q a h (λ x. absurd (omega arith))) t d

pub set_prev-below :
    (m : Headers) (n : ℕ) (bs : List Cell) (e q a : ℕ)
    → Tiles n bs e
    → a < n
    → set_prev m (first bs) q a ≡ m a
unfolding set_prev
set_prev-below m n [] e q a t h = refl
set_prev-below m n (b ∷ bs) e q a t h = store-other m b.addr a _ (λ x. absurd (omega (arith, t.0)))

-- A new link back for the first of the blocks.
pub Describes-set_prev :
    (m : Headers) (p : Option ℕ) (n : ℕ) (bs : List Cell) (e q : ℕ)
    → Tiles n bs e
    → Describes m p bs
    → Describes (set_prev m (first bs) q) (some q) bs
unfolding set_prev
Describes-set_prev m p n [] e q t d = tt
Describes-set_prev m p n (b ∷ bs) e q t d = (
  store-same m b.addr _ ∙ ap (λ (x : Header). let y : Header = record x { prev = some q } in y) d.0,
  Describes-store m (some b.addr) (n + b.size) bs e b.addr _ (omega (arith, t.0, t.1)) t.2 d.1,
)
