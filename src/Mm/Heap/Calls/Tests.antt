-- ===== src/Mm/Heap/Calls/Tests.antt =====
-- A heap of one page, and a heap with one block in use.
use alephos.Prelude.{ℕ, ◌+◌}
use alephos.Prelude.{◌≡◌, refl, Bool, true, false}
use alephos.Prelude.{Option, none, some, [], ◌∷◌, arith}
use alephos.Prelude.{◌>>=◌}
use alephos.Core.Process.Removal.{Yields}
use alephos.Mm.Heap.{Heap, Pages, store, free}
use alephos.Mm.Heap.Cells.{Cell, header}
use alephos.Mm.Heap.Calls.{alloc, realloc, init, init_at, check, no_blocks}
use alephos.Mm.Heap.Calls.Allocating.{alloc-Grants}
use alephos.Mm.Heap.Calls.Promises.{Ready, Grants}
use alephos.Mm.Heap.Calls.Checking.{check-Ready}
use alephos.Mm.Heap.Calls.Keeping.{Released, init-Ready, free-Ready, free-alloc}

-- Pages one after another; every page can be mapped.
abbrev row : Pages
row = record {
  State = ℕ;
  alloc_page = λ s. (some s, s + 4096);
  free_page = λ a s. s;
  map_page = λ v p f s. (true, s);
  unmap_page = λ v s. s;
}

abbrev unset : Heap ℕ
unset = record {
  heap_start = none;
  headers =
      λ a. record { magic = 0; size = 0; free = false; last = false; next = none; prev = none };
  statistics = no_blocks;
  bytes = λ a. 0;
  pages = 1048576;
}

abbrev booted : Heap ℕ
booted = (init row unset).1

init-Ready_example : Ready 1048576 4096 [] booted
unfolding init init_at
init-Ready_example = init-Ready row unset 1048576 refl (omega arith)

booted-Ready : Ready 1048576 4096 [] booted
unfolding init init_at
booted-Ready = init-Ready row unset 1048576 refl (omega arith)

alloc-Grants_example : Yields (Grants 1048576 4096 8326 [] 100 booted) (alloc row 5000 100 booted)
alloc-Grants_example =
    alloc-Grants row 5000 1048576 4096 [] 100 booted booted-Ready (omega arith) (omega arith)

check-Ready_example : check 5000 booted ≡ some true
check-Ready_example = check-Ready 5000 1048576 4096 [] booted booted-Ready (omega arith)

free-alloc_example : Yields (Released 9000 1048576 4096 [] booted) (alloc row 9000 100 booted)
free-alloc_example =
    free-alloc row 9000 1048576 4096 [] 100 booted booted-Ready (omega arith) (omega arith)

-- A block of 104 bytes and its header, and the rest of the page
abbrev one : Cell
one = record { addr = 1048576; size = 132; free = false }

abbrev rest : Cell
rest = record { addr = 1048708; size = 3964; free = true }

abbrev busy : Heap ℕ
busy = record unset {
  heap_start = some 1048576;
  headers =
      store (store unset.headers 1048576 (header none one (rest ∷ []))) 1048708
        (header (some 1048576) rest []);
  statistics = record {
    total_size = 4096;
    used_size = 132;
    free_size = 3964;
    total_blocks = 2;
    free_blocks = 1;
  };
}

busy-Ready : Ready 1048576 4096 (one ∷ []) busy
unfolding store
busy-Ready = record {
  start = refl;
  some_bytes = omega arith;
  holds = record {
    cells = one ∷ (rest ∷ []);
    whole = refl;
    layout = record {
      describes = (refl, (refl, tt));
      tiles = (refl, omega arith, (refl, omega arith, refl));
      fits = omega arith;
      small = omega arith;
      counts = record { size = refl; taken = refl; left = refl; blocks = refl; frees = refl };
    };
    in_use = refl;
  };
}

free-Ready_example : Yields (Ready 1048576 4096 []) (free 5000 (some 1048604) busy)
free-Ready_example = free-Ready 5000 1048576 4096 [] one [] busy busy-Ready (omega arith)

-- malloc gives the start of the page, less a header.
abbrev pointer : Option (Option ℕ × Heap ℕ) → Option (Option ℕ)
pointer o = o >>= λ r. some r.0

malloc_test : pointer (alloc row 3 100 booted) ≡ some (some 1048604)
unfolding alloc init
malloc_test = refl

-- A shrinking `realloc` leaves statistics that `heap_check` does not accept.
abbrev shrunk : Option Bool
shrunk = realloc row 5 (some 1048604) 8 busy >>= λ r. check 5 r.1

shrunk_test : shrunk ≡ some false
unfolding realloc check
shrunk_test = refl
