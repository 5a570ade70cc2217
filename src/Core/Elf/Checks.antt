-- ===== src/Core/Elf/Checks.antt =====
-- The checks of kernel/src/core/elf.c: the segments that the loader takes.
use alephos.Prelude.{ℕ, zero, suc, ◌+◌, ◌≤◌, ◌<◌}
use alephos.Prelude.{◌≡◌, ◌⊎◌, inl, inr, Bool, not}
use alephos.Prelude.{Option, none, some, List, [], ◌∷◌, ◌++◌}
use alephos.Prelude.{◌==◌, if◌then◌else◌}
use alephos.Prelude.{length}
use alephos.Prelude.{u64}
use alephos.Utils.Mem.{Memory}
use alephos.Core.Elf.{
  Phdr, SegmentInfo, LoadError, segment_overlap, data_truncated, Round, gives, truncated, overruns,
  ehdr, pheader, pt_load, segment_of, collect_from,
}
use alephos.Core.Elf.Overlaps.{AllApart, AllDisjoint, AnyConflict}

-- The program headers from index `i` on, `n` of them
abbrev headers : Memory → ℕ → ℕ → ℕ → List Phdr
headers m elf zero i = []
headers m elf (suc n) i = pheader m elf i ∷ headers m elf n (i + 1)

abbrev loadable : List Phdr → List Phdr
loadable [] = []
loadable (h ∷ hs) = if h.p_type == pt_load then h ∷ loadable hs else loadable hs

-- The loadable program headers of a file
abbrev pub file_headers : Memory → ℕ → List Phdr
file_headers m elf = loadable (headers m elf (ehdr m elf).e_phnum 0)

abbrev pub segments_of : List Phdr → List SegmentInfo
segments_of [] = []
segments_of (h ∷ hs) = segment_of h ∷ segments_of hs

-- The end of each segment's bytes in the file, which may wrap, is not past the end of the file.
abbrev pub InFile : ℕ → List Phdr → Type 0
InFile size [] = Unit {0}
InFile size (h ∷ hs) = (u64 (h.p_offset + h.p_filesz) ≤ size) × InFile size hs

abbrev pub LeavesFile : ℕ → List Phdr → Type 0
LeavesFile size [] = ⊥
LeavesFile size (h ∷ hs) = (size < u64 (h.p_offset + h.p_filesz)) ⊎ LeavesFile size hs

-- What the loop makes of these headers and of the segments so far.
abbrev Collected : ℕ → List SegmentInfo → List Phdr → Round → Type 0
Collected size before hs (gives all) =
    (all ≡ before ++ segments_of hs) × InFile size hs × (length all ≤ 16)
Collected size before hs truncated = LeavesFile size hs
Collected size before hs overruns = 16 < length before + length hs

abbrev next : Memory → ℕ → ℕ → ℕ → ℕ → Round → Round
next m elf size n i r = elim r [
  | gives more ↦ collect_from m elf size n (i + 1) more
  | truncated ↦ truncated
  | overruns ↦ overruns
]

-- `collect_round`, its tests given.
abbrev decide : Bool → Bool → Bool → List SegmentInfo → SegmentInfo → Round
decide load short room before s =
    if not load
    then gives before
    else (if short then truncated else (if room then gives (before ++ (s ∷ [])) else overruns))

-- The segments that a file gives, or why it gives none.
abbrev pub Outcome : ℕ → List Phdr → Option (LoadError ⊎ List SegmentInfo) → Type 0
Outcome size hs none = 16 < length hs
Outcome size hs (some (inl data_truncated)) = LeavesFile size hs
Outcome size hs (some (inl segment_overlap)) = AnyConflict (segments_of hs)
Outcome size hs (some (inl _)) = ⊥
Outcome size hs (some (inr all)) =
    (all ≡ segments_of hs) × InFile size hs × (length all ≤ 16) × AllDisjoint all × AllApart all
