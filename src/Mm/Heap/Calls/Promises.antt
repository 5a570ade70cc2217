-- ===== src/Mm/Heap/Calls/Promises.antt =====
-- What the calls of kernel/src/mm/heap.c need of the heap, and what they leave.
use alephos.Prelude.{ℕ, ◌+◌, ◌-◌, ◌≤◌, ◌<◌}
use alephos.Prelude.{◌≡◌}
use alephos.Prelude.{Option, none, some, List}
use alephos.Mm.Heap.{Heap, layout}
use alephos.Mm.Heap.Cells.{Cell}
use alephos.Mm.Heap.Layouts.{IsLayout, total}
use alephos.Mm.Heap.Freeing.{Holds, held}
use alephos.Mm.Heap.Calls.Searching.{Fits, Gains}

-- A list of blocks that starts at `n` and holds the blocks in use.
pub record Ready {S : Type 0} (n s : ℕ) (hs : List Cell) (h : Heap S) : Type 0 where
  pub start : h.heap_start ≡ some n
  pub some_bytes : 0 < s
  pub holds : Holds n s hs (layout h)

-- A block that fits, in a list of at least `s` bytes with the same blocks in use.
pub record Found {S : Type 0} (n s : ℕ) (hs : List Cell) (size a : ℕ) (h : Heap S) : Type 0 where
  pub cells : List Cell
  pub larger : s ≤ total cells
  pub bounded : total cells ≤ s + size + 4123
  pub layout_ok : IsLayout n cells (layout h)
  pub in_use : held cells ≡ hs
  pub fits : Fits cells size a
  pub start : h.heap_start ≡ some n

-- Nothing has changed but the pages.
abbrev pub Unchanged : {S : Type 0} → Heap S → Heap S → Type 0
Unchanged h h' = (layout h' ≡ layout h) × (h'.heap_start ≡ h.heap_start) × (h'.bytes ≡ h.bytes)

abbrev pub Search :
    {S : Type 0} (n s : ℕ) (hs : List Cell) (size : ℕ) (h : Heap S) → Option ℕ × Heap S → Type 0
Search n s hs size h (none, h') = Unchanged h h'
Search n s hs size h (some a, h') = Found n s hs size a h'

-- What `malloc` gives: nothing, or a pointer behind the header of a block that is now in use.
pub record Granted {S : Type 0} (n s limit : ℕ) (hs : List Cell) (size ptr : ℕ) (h : Heap S)
    : Type 0 where
  pub bytes : ℕ
  pub larger : s ≤ bytes
  pub bounded : bytes ≤ limit
  pub start : h.heap_start ≡ some n
  pub gains : Gains n bytes hs size (ptr - 28) (layout h)
  pub behind_header : 28 ≤ ptr

abbrev pub Grants :
    {S : Type 0} (n s limit : ℕ) (hs : List Cell) (size : ℕ) (h : Heap S)
    → Option ℕ × Heap S
    → Type 0
Grants n s limit hs size h (none, h') = Unchanged h h'
Grants n s limit hs size h (some ptr, h') = Granted n s limit hs size ptr h'
