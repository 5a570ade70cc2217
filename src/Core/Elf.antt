-- ===== src/Core/Elf.antt =====
-- kernel/src/core/elf.c and elf.h: the loader of executables. The file lies in memory, and the
-- structures are read there byte by byte. The messages to the display are left out.
pub mod Overlaps
pub mod Checks
pub mod Loading
mod Tests
use alephos.Prelude.{
  ℕ, zero, suc, ◌+◌, ◌-◌, ◌*◌, ◌/◌, ◌%◌, ◌^◌, ◌≤◌, ◌<◌, min, max, bit_and, bit_or, bit_xor,
}
use alephos.Prelude.{
  ◌≡◌, refl, sym, ap, ap₂, ◌∙◌, subst, ◌≢◌, ◌↔◌, ◌⊎◌, inl, inr, Bool, true, false, not, ◌&&◌, ◌||◌,
}
use alephos.Prelude.{Option, none, some, List, [], ◌∷◌, ◌++◌, append-nil, append_assoc, arith}
use alephos.Prelude.{
  ltb, leb, ◌==◌, if◌then◌else◌, is_some, Bool-cases, Option-cases, if_both, ltb→lt, ltb→le, lt→ltb,
  ==→eq, ==→ne, eq→==, ne→==,
}
use alephos.Prelude.{
  length, get_elem?, get_or, set, take, drop, replicate, length-append, length-set,
  length-replicate, length-take, length-drop, take-append-drop, get_or-set_self, get_or-set_ne,
  get_or-replicate, set-get_or, set-set, take-ge, drop-ge, take-of_append, drop-of_append,
}
use alephos.Prelude.{u8, u16, u32, u64, sub32, sub64}
use alephos.Prelude.{◌>>=◌}
use alephos.Utils.Mem.{Memory, memset, memcpy}
use alephos.Mm.Heap.{Pages}

abbrev pub elf_magic : ℕ
elf_magic = 0x464C457F

abbrev pub elfclass64 : ℕ
elfclass64 = 2

abbrev pub et_exec : ℕ
et_exec = 2

abbrev pub em_x86_64 : ℕ
em_x86_64 = 62

abbrev pub pt_load : ℕ
pt_load = 1

abbrev pub pt_interp : ℕ
pt_interp = 3

abbrev pub pf_x : ℕ
pf_x = 1

abbrev pub pf_w : ℕ
pf_w = 2

-- The sizes of `Elf64_Ehdr` and `Elf64_Phdr`, which are packed
abbrev pub ehdr_size : ℕ
ehdr_size = 64

abbrev pub phdr_size : ℕ
phdr_size = 56

-- PAGE_ALIGN_DOWN
abbrev pub page_align_down : ℕ → ℕ
page_align_down a = a / 4096 * 4096

-- PAGE_ALIGN_UP
abbrev pub page_align_up : ℕ → ℕ
page_align_up a = u64 (a + 4095) / 4096 * 4096

-- PAGE_OFFSET
abbrev pub page_offset : ℕ → ℕ
page_offset a = a % 4096

-- `Elf_Load_Error`
pub data LoadError : Type 0 where
  load_success : LoadError
  invalid_magic : LoadError
  unsupported_class : LoadError
  unsupported_machine : LoadError
  invalid_file_type : LoadError
  segment_overlap : LoadError
  memory_allocation : LoadError
  segment_mapping : LoadError
  data_truncated : LoadError

abbrev pub succeeds : LoadError → Bool
succeeds load_success = true
succeeds _ = false

-- The fields of `Elf64_Ehdr` that are read
pub record Ehdr : Type 0 where
  pub e_magic : ℕ
  pub e_class : ℕ
  pub e_type : ℕ
  pub e_machine : ℕ
  pub e_entry : ℕ
  pub e_phoff : ℕ
  pub e_phnum : ℕ

-- The fields of `Elf64_Phdr` that are read
pub record Phdr : Type 0 where
  pub p_type : ℕ
  pub p_flags : ℕ
  pub p_offset : ℕ
  pub p_vaddr : ℕ
  pub p_filesz : ℕ
  pub p_memsz : ℕ

-- `Elf_Segment_Info`
pub record SegmentInfo : Type 0 where
  pub vaddr_start : ℕ
  pub vaddr_end : ℕ
  pub file_offset : ℕ
  pub file_size : ℕ
  pub mem_size : ℕ
  pub flags : ℕ

-- The number of `n` bytes at an address, its low byte first
unfoldable pub read_le : Memory → ℕ → ℕ → ℕ
read_le m a zero = 0
read_le m a (suc n) = m a + 256 * read_le m (a + 1) n

pub ehdr : Memory → ℕ → Ehdr
unfolding read_le
ehdr m a = record {
  e_magic = read_le m a 4;
  e_class = read_le m (a + 4) 1;
  e_type = read_le m (a + 16) 2;
  e_machine = read_le m (a + 18) 2;
  e_entry = read_le m (a + 24) 8;
  e_phoff = read_le m (a + 32) 8;
  e_phnum = read_le m (a + 56) 2;
}

pub phdr : Memory → ℕ → Phdr
unfolding read_le
phdr m a = record {
  p_type = read_le m a 4;
  p_flags = read_le m (a + 4) 4;
  p_offset = read_le m (a + 8) 8;
  p_vaddr = read_le m (a + 16) 8;
  p_filesz = read_le m (a + 32) 8;
  p_memsz = read_le m (a + 40) 8;
}

-- `&pheaders[i]`
abbrev pub pheader : Memory → ℕ → ℕ → Phdr
pheader m elf i = phdr m (u64 (elf + (ehdr m elf).e_phoff + i * phdr_size))

pub validate_elf_header : Ehdr → ℕ → LoadError
validate_elf_header h size =
    if not (h.e_magic == elf_magic)
    then invalid_magic
    else (if not (h.e_class == elfclass64)
        then unsupported_class
        else (if ltb size ehdr_size
            then data_truncated
            else (if (h.e_phnum == 0)
                  || (h.e_phoff == 0)
                  || ltb size (u64 (h.e_phoff + h.e_phnum * phdr_size))
                then data_truncated
                else (if not (h.e_machine == em_x86_64)
                    then unsupported_machine
                    else (if not (h.e_type == et_exec) then invalid_file_type else load_success)))))

pub segment_of : Phdr → SegmentInfo
segment_of ph = record {
  vaddr_start = page_align_down ph.p_vaddr;
  vaddr_end = page_align_up (u64 (ph.p_vaddr + ph.p_memsz));
  file_offset = ph.p_offset;
  file_size = ph.p_filesz;
  mem_size = ph.p_memsz;
  flags = ph.p_flags;
}

-- What the array of 16 segments in `elf_load_executable` holds
abbrev pub max_segments : ℕ
max_segments = 16

-- A round of the loop over the program headers: it is done with the header, finds the file too
-- short, or writes past the end of the array, where the behaviour is not defined.
pub data Round : Type 0 where
  gives : List SegmentInfo → Round
  truncated : Round
  overruns : Round

pub collect_round : Phdr → ℕ → List SegmentInfo → Round
unfolding segment_of
collect_round ph size segments =
    if not (ph.p_type == pt_load)
    then gives segments
    else (if ltb size (u64 (ph.p_offset + ph.p_filesz))
        then truncated
        else (if ltb (length segments) max_segments
            then gives (segments ++ (segment_of ph ∷ []))
            else overruns))

-- The loop from index `i` on, with `n` rounds left.
pub collect_from : Memory → ℕ → ℕ → ℕ → ℕ → List SegmentInfo → Round
unfolding collect_round ehdr phdr
collect_from m elf size zero i segments = gives segments
collect_from m elf size (suc n) i segments = elim (collect_round (pheader m elf i) size segments) [
  | gives more ↦ collect_from m elf size n (i + 1) more
  | truncated ↦ truncated
  | overruns ↦ overruns
]

pub overlaps : SegmentInfo → SegmentInfo → Bool
overlaps s t = not (leb t.vaddr_end s.vaddr_start || leb s.vaddr_end t.vaddr_start)

pub overlaps_any : SegmentInfo → List SegmentInfo → Bool
unfolding overlaps
overlaps_any s [] = false
overlaps_any s (t ∷ ts) = overlaps s t || overlaps_any s ts

pub any_overlap : List SegmentInfo → Bool
unfolding overlaps_any
any_overlap [] = false
any_overlap (s ∷ ss) = overlaps_any s ss || any_overlap ss

-- `none` where a header is written past the end of the array.
pub collect_segment_info : Memory → ℕ → ℕ → Option (LoadError ⊎ List SegmentInfo)
unfolding collect_from any_overlap ehdr
collect_segment_info m elf size = elim (collect_from m elf size (ehdr m elf).e_phnum 0 []) [
  | gives segments ↦ some (if any_overlap segments then inl segment_overlap else inr segments)
  | truncated ↦ some (inl data_truncated)
  | overruns ↦ none
]

-- `elf_validate`; a pointer that is NULL is `none`.
pub record Validation : Type 0 where
  pub valid : Bool
  pub entry_point : ℕ
  pub machine_type : ℕ
  pub file_type : ℕ

pub elf_validate : Memory → Option ℕ → ℕ → Option Validation → Bool × Option Validation
unfolding validate_elf_header ehdr
elf_validate m none size result = (false, result)
elf_validate m (some elf) size none = (false, none)
elf_validate m (some elf) size (some result) =
    let h = ehdr m elf in
    if ltb size ehdr_size
    then (false, some result)
    else (if succeeds (validate_elf_header h size)
        then (
          true,
          some record {
            valid = true;
            entry_point = h.e_entry;
            machine_type = h.e_machine;
            file_type = h.e_type;
          },
        )
        else (false, some (record result { valid = false })))

-- The loop of `elf_get_interpreter` from index `i` on, with `n` rounds left.
pub find_interpreter : Memory → ℕ → ℕ → ℕ → ℕ → Option ℕ
unfolding ehdr phdr
find_interpreter m elf size zero i = none
find_interpreter m elf size (suc n) i =
    let ph = pheader m elf i in
    let rest = find_interpreter m elf size n (i + 1) in
    if ph.p_type == pt_interp
    then (if ltb size (u64 (ph.p_offset + ph.p_filesz))
        then none
        else some (u64 (elf + ph.p_offset)))
    else rest

pub elf_get_interpreter : Memory → ℕ → ℕ → Option ℕ
unfolding find_interpreter validate_elf_header ehdr
elf_get_interpreter m elf size =
    let h = ehdr m elf in
    if succeeds (validate_elf_header h size) then find_interpreter m elf size h.e_phnum 0 else none
