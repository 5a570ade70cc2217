-- ===== src/Core/Elf/Loading/Ends.antt =====
-- elf_load_executable of kernel/src/core/elf.c, from the header's checks to the entry point.
use alephos.Prelude.{ℕ, ◌+◌, ◌*◌, ◌%◌, ◌^◌, ◌≤◌, ◌<◌}
use alephos.Prelude.{◌≡◌, ◌⊎◌, Bool, not, ◌||◌}
use alephos.Prelude.{Option, none, some, List, [], ◌∷◌}
use alephos.Prelude.{ltb, ◌==◌, if◌then◌else◌}
use alephos.Prelude.{length}
use alephos.Prelude.{u64}
use alephos.Utils.Mem.{Memory}
use alephos.Mm.Heap.{Pages}
use alephos.Core.Elf.{
  Ehdr, Phdr, SegmentInfo, LoadError, load_success, invalid_magic, unsupported_class,
  unsupported_machine, invalid_file_type, segment_overlap, data_truncated, memory_allocation,
  segment_mapping, succeeds, ehdr, phdr_size, em_x86_64, et_exec, validate_elf_header,
}
use alephos.Core.Elf.Loading.{Machine, set_entry}
use alephos.Core.Elf.Overlaps.{AnyConflict}
use alephos.Core.Elf.Checks.{file_headers, segments_of, LeavesFile}
use alephos.Core.Elf.Loading.Filling.{Free, Loaded}
use alephos.Core.Elf.Loading.Calls.{Serves}

-- The first three tests on a header
abbrev tests : Bool → Bool → Bool → LoadError → Bool
tests magic class short rest = succeeds (
    if not magic
    then invalid_magic
    else (if not class then unsupported_class else (if short then data_truncated else rest)))

-- The other tests
abbrev late : Ehdr → ℕ → LoadError
late h size =
    if (h.e_phnum == 0) || (h.e_phoff == 0) || ltb size (u64 (h.e_phoff + h.e_phnum * phdr_size))
    then data_truncated
    else (if not (h.e_machine == em_x86_64)
        then unsupported_machine
        else (if not (h.e_type == et_exec) then invalid_file_type else load_success))

-- The segment is of whole pages that belong neither to the page allocator nor to the page tables,
-- lies apart from the file of `size` bytes at `elf`, and has room for its bytes of the file; their
-- end does not wrap.
pub record Placed (reserved : ℕ → Bool) (elf size : ℕ) (s : SegmentInfo) : Type 0 where
  pub forward : s.vaddr_start ≤ s.vaddr_end
  pub below : s.vaddr_end < 2 ^ 64
  pub aligned : s.vaddr_start % 4096 ≡ 0
  pub aligned_end : s.vaddr_end % 4096 ≡ 0
  pub no_wrap : s.file_offset + s.file_size < 2 ^ 64
  pub file_below : elf + size < 2 ^ 64
  pub room : s.vaddr_start + s.file_size ≤ s.vaddr_end
  pub apart : (s.vaddr_end ≤ elf) ⊎ (elf + size ≤ s.vaddr_start)
  pub free : Free reserved s

abbrev pub AllPlaced : (ℕ → Bool) → ℕ → ℕ → List SegmentInfo → Type 0
AllPlaced reserved elf size [] = Unit {0}
AllPlaced reserved elf size (s ∷ ss) = Placed reserved elf size s × AllPlaced reserved elf size ss

module _ (P : Pages) (touch : ℕ → P.State → Memory → Memory) (reserved : ℕ → Bool) (elf size : ℕ)
    (entry : Option ℕ) (k : Machine P.State) where
  open P use {State}

  -- An error that is found after the header's checks.
  abbrev pub Late : LoadError → Machine State → List Phdr → Type 0
  Late data_truncated k' hs = LeavesFile size hs × (k' ≡ k)
  Late segment_overlap k' hs = AnyConflict (segments_of hs) × (k' ≡ k)
  Late memory_allocation k' hs = ¬ Serves P
  Late segment_mapping k' hs = ¬ Serves P
  Late _ k' hs = ⊥

  abbrev pub Ending : LoadError → Option ℕ → Machine State → Type 0
  Ending load_success entry' k' =
      Loaded reserved k.bytes elf (segments_of (file_headers k.bytes elf)) k'.bytes
      × (entry' ≡ set_entry P touch entry (ehdr k.bytes elf).e_entry)
  Ending e entry' k' =
      (((validate_elf_header (ehdr k.bytes elf) size ≡ e) × (k' ≡ k))
        ⊎ Late e k' (file_headers k.bytes elf))
      × (entry' ≡ entry)

  -- What `elf_load_executable` may return.
  abbrev pub Ends : Option (LoadError × Option ℕ × Machine State) → Type 0
  Ends none = 16 < length (file_headers k.bytes elf)
  Ends (some (e, entry', k')) = Ending e entry' k'

  -- The end of a load whose segments are loaded, or not.
  abbrev closed : LoadError × Machine State → LoadError × Option ℕ × Machine State
  closed r =
      if succeeds r.0
      then (r.0, set_entry P touch entry (ehdr r.1.bytes elf).e_entry, r.1)
      else (r.0, entry, r.1)
