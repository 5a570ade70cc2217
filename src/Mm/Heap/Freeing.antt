-- ===== src/Mm/Heap/Freeing.antt =====
-- heap_free of kernel/src/mm/heap.c: what becomes of the blocks that are in use.
use alephos.Prelude.{ℕ, ◌+◌, ◌≤◌, ◌<◌}
use alephos.Prelude.{◌≡◌, refl, sym, ap, ◌∙◌, subst, ◌⊎◌, inl, inr, true, false}
use alephos.Prelude.{Option, none, some, List, [], ◌∷◌, ◌++◌, append-nil, append_assoc, arith}
use alephos.Prelude.{◌==◌, if◌then◌else◌, Bool-cases}
use alephos.Prelude.{length}
use alephos.Prelude.{◌>>=◌}
use alephos.Core.Process.Removal.{Yields}
use alephos.Mm.Heap.{
  Header, Layout, leads_free, merge_free_blocks, merge_into, free_block, give_block,
  heap_block_magic,
}
use alephos.Mm.Heap.Cells.{Cell, before_of}
use alephos.Mm.Heap.Layouts.{IsLayout, total, total-append, AtBlock, at_block, give-IsLayout}
use alephos.Mm.Heap.Merging.{join, merged, merge-IsLayout}

-- The blocks in use.
abbrev pub held : List Cell → List Cell
held [] = []
held (b ∷ bs) = if b.free then held bs else b ∷ held bs

pub held-append : (xs ys : List Cell) → held (xs ++ ys) ≡ held xs ++ held ys
held-append [] ys = refl
held-append (x ∷ xs) ys = elim (Bool-cases x.free) [
  | inl f ↦
      ap (λ c. if c then held (xs ++ ys) else x ∷ held (xs ++ ys)) f
      ∙ held-append xs ys
      ∙ ap (λ c. (if c then held xs else x ∷ held xs) ++ held ys) (sym f)
  | inr f ↦
      ap (λ c. if c then held (xs ++ ys) else x ∷ held (xs ++ ys)) f
      ∙ ap (λ l. x ∷ l) (held-append xs ys)
      ∙ ap (λ c. (if c then held xs else x ∷ held xs) ++ held ys) (sym f)
]

-- The list of blocks is right, `s` bytes from `n` on, with these blocks in use.
pub record Holds (n s : ℕ) (hs : List Cell) (l : Layout) : Type 0 where
  pub cells : List Cell
  pub whole : total cells ≡ s
  pub layout : IsLayout n cells l
  pub in_use : held cells ≡ hs

-- The merged blocks begin with the block that was free, and the others in use are kept.
pub record Merged (b : Cell) (ys : List Cell) : Type 0 where
  pub cell : Cell
  pub rest : List Cell
  pub whole : merged b ys ≡ cell ∷ rest
  pub at : cell.addr ≡ b.addr
  pub free : cell.free ≡ true
  pub shorter : length rest ≤ length ys
  pub in_use : held rest ≡ held ys
  pub bytes : cell.size + total rest ≡ b.size + total ys

pub merged_lem : (b : Cell) (ys : List Cell) → b.free ≡ true → Merged b ys
merged_lem b [] f = record {
  cell = b;
  rest = [];
  whole = refl;
  at = refl;
  free = f;
  shorter = omega arith;
  in_use = refl;
  bytes = refl;
}
merged_lem b (y ∷ ys) f = elim (Bool-cases y.free) [
  | inl fy ↦
      let r : Merged (join b y) ys = merged_lem (join b y) ys f in
      record {
        cell = r.cell;
        rest = r.rest;
        whole = ap (λ c. if c then merged (join b y) ys else b ∷ (y ∷ ys)) fy ∙ r.whole;
        at = r.at;
        free = r.free;
        shorter = omega (arith, r.shorter);
        in_use = r.in_use ∙ ap (λ c. if c then held ys else y ∷ held ys) (sym fy);
        bytes = omega (arith, r.bytes);
      }
  | inr fy ↦ record {
    cell = b;
    rest = y ∷ ys;
    whole = ap (λ c. if c then merged (join b y) ys else b ∷ (y ∷ ys)) fy;
    at = refl;
    free = f;
    shorter = omega arith;
    in_use = refl;
    bytes = refl;
  }
]

pub snoc_cases :
    (xs : List Cell) → (xs ≡ []) ⊎ ((zs : List Cell) × (w : Cell) × (xs ≡ zs ++ (w ∷ [])))
snoc_cases [] = inl refl
snoc_cases (x ∷ xs) = elim (snoc_cases xs) [
  | inl e ↦ inr ([], x, ap (λ l. x ∷ l) e)
  | inr (zs, w, e) ↦ inr (x ∷ zs, w, ap (λ l. x ∷ l) e)
]

before_of-snoc :
    (p : Option ℕ) (zs : List Cell) (w : Cell) → before_of p (zs ++ (w ∷ [])) ≡ some w.addr
before_of-snoc p [] w = refl
before_of-snoc p (z ∷ zs) w = before_of-snoc (some z.addr) zs w

pub Yields-map :
    {A : Type 0} (P Q : A → Type 0) (o : Option A) → ((a : A) → P a → Q a) → Yields P o → Yields Q o
Yields-map P Q none f y = y
Yields-map P Q (some a) f y = f a y

pub Yields-bind :
    {A B : Type 0} (P : A → Type 0) (Q : B → Type 0) (o : Option A) (f : A → Option B)
    → Yields P o
    → ((a : A) → P a → Yields Q (f a))
    → Yields Q (o >>= f)
Yields-bind P Q none f y k = y
Yields-bind P Q (some a) f y k = k a y

-- A free block in front of others adds nothing to those in use.
pub held-free :
    (xs : List Cell) (b : Cell) (ys : List Cell)
    → b.free ≡ true
    → held (xs ++ (b ∷ ys)) ≡ held xs ++ held ys
held-free xs b ys f =
    held-append xs (b ∷ ys) ∙ ap (λ t. held xs ++ (if t then held ys else b ∷ held ys)) f

pub merged-Holds :
    (n s : ℕ) (xs : List Cell) (b : Cell) (ys : List Cell) (l : Layout)
    → b.free ≡ true
    → total (xs ++ (b ∷ ys)) ≡ s
    → IsLayout n (xs ++ merged b ys) l
    → Holds n s (held xs ++ held ys) l
merged-Holds n s xs b ys l f w v =
    let r : Merged b ys = merged_lem b ys f in
    record {
      cells = xs ++ merged b ys;
      whole =
          ap (λ m. total (xs ++ m)) r.whole
          ∙ omega (arith, r.bytes, w, total-append xs (r.cell ∷ r.rest), total-append xs (b ∷ ys));
      layout = v;
      in_use =
          ap (λ m. held (xs ++ m)) r.whole
          ∙ held-free xs r.cell r.rest r.free
          ∙ ap (λ h. held xs ++ h) r.in_use;
    }

-- The block before, the link to it given.
abbrev join_before : ℕ → Layout → Option ℕ → Option Layout
join_before fuel l o = elim o [ none ↦ some l | some a ↦ merge_free_blocks fuel a l ]

-- The last step: the block before is merged if it is free.
merge_into-Holds :
    (fuel n s : ℕ) (xs : List Cell) (c : Cell) (ys : List Cell) (l : Layout)
    → length ys + 1 < fuel
    → total (xs ++ (c ∷ ys)) ≡ s
    → IsLayout n (xs ++ (c ∷ ys)) l
    → c.free ≡ true
    → Yields (Holds n s (held xs ++ held ys)) (merge_into fuel (l.0 c.addr).prev l)
unfolding merge_into leads_free
merge_into-Holds fuel n s xs c ys l f size v fc =
    let k : AtBlock n xs c ys l = at_block n xs c ys l v in
    let link : (l.0 c.addr).prev ≡ before_of none xs = ap (λ h. h.prev) k.rest.0 in
    let own : held (xs ++ (c ∷ ys)) ≡ held xs ++ held ys =
      held-append xs (c ∷ ys) ∙ ap (λ t. held xs ++ (if t then held ys else c ∷ held ys)) fc in
    let keep : Holds n s (held xs ++ held ys) l = record {
      cells = xs ++ (c ∷ ys);
      whole = size;
      layout = v;
      in_use = own;
    } in
    elim (snoc_cases xs) [
      | inl e ↦
          let alone : leads_free l.0 (l.0 c.addr).prev ≡ none =
            ap (leads_free l.0) (link ∙ ap (before_of none) e) ∙ refl in
          subst (λ o. Yields (Holds n s (held xs ++ held ys)) (join_before fuel l o)) (sym alone)
            keep
      | inr (zs, w, e) ↦
          let shift : xs ++ (c ∷ ys) ≡ zs ++ (w ∷ (c ∷ ys)) =
            ap (λ l. l ++ (c ∷ ys)) e ∙ append_assoc zs (w ∷ []) (c ∷ ys) in
          let v' : IsLayout n (zs ++ (w ∷ (c ∷ ys))) l = subst (λ m. IsLayout n m l) shift v in
          let linked : leads_free l.0 (l.0 c.addr).prev ≡ (if w.free then some w.addr else none) =
            ap (leads_free l.0) (link ∙ ap (before_of none) e ∙ before_of-snoc none zs w)
            ∙ ap (λ (h : Header). if h.free then some w.addr else none)
                (at_block n zs w (c ∷ ys) l v').rest.0 in
          elim (Bool-cases w.free) [
            | inl fw ↦
                let here : leads_free l.0 (l.0 c.addr).prev ≡ some w.addr =
                  linked ∙ ap (λ t. if t then some w.addr else none) fw in
                let same : held zs ++ held (c ∷ ys) ≡ held xs ++ held ys =
                  ap (λ t. held zs ++ (if t then held ys else c ∷ held ys)) fc
                  ∙ ap (λ h. h ++ held ys)
                      (sym (ap held e ∙ held-free zs w [] fw ∙ append-nil (held zs))) in
                subst (λ o. Yields (Holds n s (held xs ++ held ys)) (join_before fuel l o))
                  (sym here)
                  (Yields-map (λ l'. IsLayout n (zs ++ merged w (c ∷ ys)) l')
                    (Holds n s (held xs ++ held ys)) (merge_free_blocks fuel w.addr l)
                    (λ l' v''.
                      subst (λ hs. Holds n s hs l') same
                        (merged-Holds n s zs w (c ∷ ys) l' fw (ap total (sym shift) ∙ size) v''))
                    (merge-IsLayout fuel n zs w (c ∷ ys) l (omega arith) v' fw))
            | inr fw ↦
                let here : leads_free l.0 (l.0 c.addr).prev ≡ none =
                  linked ∙ ap (λ t. if t then some w.addr else none) fw in
                subst (λ o. Yields (Holds n s (held xs ++ held ys)) (join_before fuel l o))
                  (sym here) keep
          ]
    ]

-- heap_free of a block in use ends, and takes that block and no other out of those in use.
pub free_block-Holds :
    (fuel n s : ℕ) (xs : List Cell) (b : Cell) (ys : List Cell) (l : Layout)
    → length ys + 1 < fuel
    → total (xs ++ (b ∷ ys)) ≡ s
    → IsLayout n (xs ++ (b ∷ ys)) l
    → b.free ≡ false
    → Yields (Holds n s (held xs ++ held ys)) (free_block fuel b.addr l)
unfolding free_block
free_block-Holds fuel n s xs b ys l f size v fb =
    let k : AtBlock n xs b ys l = at_block n xs b ys l v in
    let b' : Cell = record b { free = true } in
    let r : Merged b' ys = merged_lem b' ys refl in
    let marked : ((l.0 b.addr).magic == heap_block_magic) ≡ true =
      ap (λ (h : Header). h.magic == heap_block_magic) k.rest.0 in
    subst
      (λ t. Yields (Holds n s (held xs ++ held ys)) (
        if t
        then (merge_free_blocks fuel b.addr (give_block b.addr l) >>= λ l'.
            merge_into fuel (l'.0 b.addr).prev l')
        else some l))
      (sym marked)
      (Yields-bind (λ l'. IsLayout n (xs ++ merged b' ys) l') (Holds n s (held xs ++ held ys))
        (merge_free_blocks fuel b.addr (give_block b.addr l))
        (λ l'. merge_into fuel (l'.0 b.addr).prev l')
        (merge-IsLayout fuel n xs b' ys (give_block b.addr l) (omega arith)
          (give-IsLayout n xs b ys l v fb) refl)
        (λ l' v'.
          subst (λ a. Yields (Holds n s (held xs ++ held ys)) (merge_into fuel (l'.0 a).prev l'))
            r.at
            (subst
              (λ hs.
                Yields (Holds n s (held xs ++ hs)) (merge_into fuel (l'.0 r.cell.addr).prev l'))
              r.in_use
              (merge_into-Holds fuel n s xs r.cell r.rest l' (omega (arith, r.shorter))
                (omega (
                  arith,
                  r.bytes,
                  size,
                  total-append xs (r.cell ∷ r.rest),
                  total-append xs (b ∷ ys),
                ))
                (subst (λ m. IsLayout n (xs ++ m) l') r.whole v') r.free))))
