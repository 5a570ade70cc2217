-- ===== src/Mm/Heap/Splitting.antt =====
-- split_block of kernel/src/mm/heap.c on a list of cells.
use alephos.Prelude.{ℕ, ◌+◌, ◌-◌, ◌^◌, ◌≤◌, ◌<◌}
use alephos.Prelude.{◌≡◌, refl, ◌∙◌, subst, true, false}
use alephos.Prelude.{Option, some, List, ◌∷◌, arith}
use alephos.Prelude.{ltb}
use alephos.Prelude.{u32, u64, sub64}
use alephos.Mm.Heap.{Headers, Stats, store, set_prev, split_block}
use alephos.Mm.Heap.Cells.{
  Cell, first, header, Describes, Tiles, store-same, store-other, Tiles-le, Describes-store,
  set_prev-below, Describes-set_prev,
}

-- The two parts of a block: `size` bytes and a header, and the rest, which is free.
abbrev pub front : Cell → ℕ → Cell
front b size = record b { size = size + 28 }

abbrev pub back : Cell → ℕ → Cell
back b size = record { addr = b.addr + (size + 28); size = b.size - (size + 28); free = true }

abbrev pub one_more : Stats → Stats
one_more t = record t {
  total_blocks = u64 (t.total_blocks + 1);
  free_blocks = u64 (t.free_blocks + 1);
}

-- The headers after a split.
abbrev pub split_headers : Headers → Option ℕ → Cell → ℕ → List Cell → Headers
split_headers m p b size ys =
    store
      (set_prev (store m (b.addr + (size + 28)) (header (some b.addr) (back b size) ys)) (first ys)
        (b.addr + (size + 28)))
      b.addr (header p (front b size) (back b size ∷ ys))

module _ (m : Headers) (p : Option ℕ) (b : Cell) (ys : List Cell) (e size : ℕ)
    (t : Tiles b.addr (b ∷ ys) e) (d : Describes m p (b ∷ ys)) (small : b.size < 2 ^ 32)
    (inside : e ≤ 2 ^ 64) where
  pub split_block-eq :
      (stats : Stats)
      → size + 56 ≤ b.size
      → split_block b.addr size (m, stats) ≡ (split_headers m p b size ys, one_more stats)
  unfolding split_block
  split_block-eq stats room =
      let rest : sub64 (sub64 b.size size) 28 ≡ b.size - (size + 28) = omega arith in
      let enough : ltb (b.size - (size + 28)) 28 ≡ false = ground arith in
      let at : u64 (b.addr + size + 28) ≡ b.addr + (size + 28) =
        omega (arith, Tiles-le (b.addr + b.size) ys e t.2) in
      let more : u32 (b.size - (size + 28)) ≡ b.size - (size + 28) = omega arith in
      let less : u32 (size + 28) ≡ size + 28 = omega arith in
      let kept : set_prev (store m (b.addr + (size + 28)) (header (some b.addr) (back b size) ys))
            (first ys) (b.addr + (size + 28)) b.addr
          ≡ header p b ys =
        set_prev-below (store m (b.addr + (size + 28)) (header (some b.addr) (back b size) ys))
          (b.addr + b.size) ys e (b.addr + (size + 28)) b.addr t.2 (omega (arith, t.1))
        ∙ store-other m (b.addr + (size + 28)) b.addr _ (λ x. absurd (omega arith))
        ∙ d.0 in
      rw (d.0, rest, enough, at, more, less, kept) refl

  pub split_headers-Describes :
      size + 56 ≤ b.size
      → Describes (split_headers m p b size ys) p (front b size ∷ (back b size ∷ ys))
  split_headers-Describes room =
      let n : ℕ = b.addr + b.size in
      let at : ℕ = b.addr + (size + 28) in
      let m1 : Headers = store m at (header (some b.addr) (back b size) ys) in
      let m2 : Headers = set_prev m1 (first ys) at in
      let d1 : Describes m1 (some b.addr) ys =
        Describes-store m (some b.addr) n ys e at _ (omega arith) t.2 d.1 in
      let d2 : Describes m2 (some at) ys = Describes-set_prev m1 (some b.addr) n ys e at t.2 d1 in
      (
        store-same m2 b.addr _,
        (
          store-other m2 b.addr at _ (λ x. absurd (omega arith))
              ∙ set_prev-below m1 n ys e at at t.2 (omega arith)
              ∙ store-same m at _,
          Describes-store m2 (some at) n ys e b.addr _ (omega (arith, t.1)) t.2 d2,
        ),
      )

  pub split_headers-below : (a : ℕ) → a < b.addr → split_headers m p b size ys a ≡ m a
  split_headers-below a h =
      let at : ℕ = b.addr + (size + 28) in
      let m1 : Headers = store m at (header (some b.addr) (back b size) ys) in
      store-other (set_prev m1 (first ys) at) b.addr a _ (λ x. absurd (omega arith))
      ∙ set_prev-below m1 (b.addr + b.size) ys e at a t.2 (omega arith)
      ∙ store-other m at a _ (λ x. absurd (omega arith))

  pub split-Tiles : size + 56 ≤ b.size → Tiles b.addr (front b size ∷ (back b size ∷ ys)) e
  split-Tiles room =
      (refl, omega arith, (refl, omega arith, subst (λ k. Tiles k ys e) (omega arith) t.2))

  pub split_block-none :
      (stats : Stats)
      → size + 28 ≤ b.size
      → b.size < size + 56
      → split_block b.addr size (m, stats) ≡ (m, stats)
  unfolding split_block
  split_block-none stats fits room =
      let rest : sub64 (sub64 b.size size) 28 ≡ b.size - (size + 28) = omega arith in
      let enough : ltb (b.size - (size + 28)) 28 ≡ true = ground arith in
      rw (d.0, rest, enough) refl
