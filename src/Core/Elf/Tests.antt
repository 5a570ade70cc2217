-- ===== src/Core/Elf/Tests.antt =====
-- A file of one segment of four bytes, and one of seventeen segments.
use alephos.Prelude.{ℕ, ◌+◌, ◌-◌, ◌%◌}
use alephos.Prelude.{◌≡◌, refl, Bool, true, false, ◌&&◌, ◌||◌}
use alephos.Prelude.{none, some, List, [], ◌∷◌}
use alephos.Prelude.{ltb, leb, ◌==◌, if◌then◌else◌}
use alephos.Utils.Mem.{Memory}
use alephos.Mm.Heap.{Pages}
use alephos.Core.Elf.{ehdr, phdr, collect_segment_info, elf_validate, elf_get_interpreter}
use alephos.Core.Elf.Loading.{Machine}
use alephos.Core.Elf.Loading.Ends.{Ends}

-- The bytes that are not zero, by their offset
abbrev lookup : List (ℕ × ℕ) → ℕ → ℕ
lookup [] a = 0
lookup (p ∷ ps) a = if p.0 == a then p.1 else lookup ps a

abbrev image_bytes : List (ℕ × ℕ)
image_bytes =
    (0, 127)
    ∷ ((1, 69)
        ∷ ((2, 76)
            ∷ ((3, 70)
                ∷ ((4, 2)
                    ∷ ((16, 2)
                        ∷ ((18, 62)
                            ∷ ((25, 16)
                                ∷ ((26, 64)
                                    ∷ ((32, 64)
                                        ∷ ((56, 1)
                                            ∷ ((64, 1)
                                                ∷ ((68, 5)
                                                    ∷ ((72, 120)
                                                        ∷ ((80, 16)
                                                            ∷ ((82, 64)
                                                            ∷ ((96, 4)
                                                            ∷ ((104, 8)
                                                            ∷ ((120, 11)
                                                            ∷ ((121, 22)
                                                            ∷ ((122, 33)
                                                            ∷ ((123, 44) ∷ [])))))))))))))))))))))

abbrev file : Memory
file a = if ltb a 1048576 then 0 else lookup image_bytes (a - 1048576)

-- The headers of seventeen empty segments
abbrev many : Memory
many a =
    if (a == 32) || (leb 64 a && ltb a 1016 && ((a - 64) % 56 == 0))
    then (if a == 32 then 64 else 1)
    else (if a == 56 then 17 else 0)

too_many : collect_segment_info many 0 1016 ≡ none
unfolding collect_segment_info ehdr phdr
too_many = refl

-- Pages one after another; every page can be mapped.
abbrev row : Pages
row = record {
  State = ℕ;
  alloc_page = λ s. (some s, s + 4096);
  free_page = λ a s. s;
  map_page = λ v p f s. (true, s);
  unmap_page = λ v s. s;
}

abbrev before : Machine ℕ
before = record { bytes = file; mapped = λ page. false; pages = 4096 }

-- The tables are the first page, and a page that is mapped holds sevens.
abbrev tables : ℕ → Bool
tables a = ltb a 4096

abbrev show_page : ℕ → ℕ → Memory → Memory
show_page page s m a = if ltb a 4096 || (leb page a && ltb a (page + 4096)) then 7 else m a

validates :
    elf_validate file
      (some 1048576)
      124
      (some (record { valid = false; entry_point = 0; machine_type = 0; file_type = 0 }))
    ≡ (
      true,
      some (record { valid = true; entry_point = 4198400; machine_type = 62; file_type = 2 }),
    )
unfolding elf_validate
validates = refl

no_interpreter : elf_get_interpreter file 1048576 124 ≡ none
unfolding elf_get_interpreter
no_interpreter = refl
