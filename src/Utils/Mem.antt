-- ===== src/Utils/Mem.antt =====
-- kernel/src/utils/mem.c: memset, memmove, memcpy and memcmp. Memory is a function from addresses
-- to bytes; the ranges that are given lie in memory, so that no address wraps.
pub mod Copies
pub mod Compares
mod Tests
use alephos.Prelude.{
  ℕ, zero, suc, ◌+◌, ◌-◌, ◌*◌, ◌/◌, ◌%◌, ◌^◌, ◌≤◌, ◌<◌, min, max, bit_and, bit_or, bit_xor,
}
use alephos.Prelude.{
  ◌≡◌, refl, sym, ap, ap₂, ◌∙◌, subst, ◌≢◌, ◌↔◌, ◌⊎◌, inl, inr, Bool, true, false, not, ◌&&◌, ◌||◌,
}
use alephos.Prelude.{Option, none, some, List, [], ◌∷◌, ◌++◌, append-nil, append_assoc, arith}
use alephos.Prelude.{
  ltb, leb, ◌==◌, if◌then◌else◌, is_some, Bool-cases, Option-cases, if_both, ltb→lt, ltb→le, lt→ltb,
  ==→eq, ==→ne, eq→==, ne→==,
}
use alephos.Prelude.{
  length, get_elem?, get_or, set, take, drop, replicate, length-append, length-set,
  length-replicate, length-take, length-drop, take-append-drop, get_or-set_self, get_or-set_ne,
  get_or-replicate, set-get_or, set-set, take-ge, drop-ge, take-of_append, drop-of_append,
}
use alephos.Prelude.{u8, u16, u32, u64, sub32, sub64}

abbrev pub Memory : Type 0
Memory = ℕ → ℕ

unfoldable pub put : Memory → ℕ → ℕ → Memory
put m a c b = if a == b then c else m b

-- The loop at index `i` with `n` rounds left, `c` already a byte.
unfoldable pub fill : Memory → ℕ → ℕ → ℕ → ℕ → Memory
unfolding put
fill m s c i zero = m
fill m s c i (suc n) = fill (put m (s + i) c) s c (i + 1) n

unfoldable pub memset : Memory → ℕ → ℕ → ℕ → Memory
unfolding fill
memset m s c n = fill m s (u8 c) 0 n

-- The ascending loop of memcpy and memmove at index `i` with `n` rounds left.
unfoldable pub copy_up : Memory → ℕ → ℕ → ℕ → ℕ → Memory
unfolding put
copy_up m dest src i zero = m
copy_up m dest src i (suc n) = copy_up (put m (dest + i) (m (src + i))) dest src (i + 1) n

-- The descending loop of memmove.
pub copy_down : Memory → ℕ → ℕ → ℕ → Memory
unfolding put
copy_down m dest src zero = m
copy_down m dest src (suc i) = copy_down (put m (dest + i) (m (src + i))) dest src i

unfoldable pub memcpy : Memory → ℕ → ℕ → ℕ → Memory
unfolding copy_up
memcpy m dest src n = copy_up m dest src 0 n

pub memmove : Memory → ℕ → ℕ → ℕ → Memory
unfolding copy_up copy_down
memmove m dest src n =
    if ltb dest src
    then copy_up m dest src 0 n
    else (if ltb src dest then copy_down m dest src n else m)

-- The sign that memcmp returns: -1, 0 or 1
pub data Sign : Type 0 where
  negative null positive : Sign

-- The loop of memcmp at index `i` with `n` rounds left.
pub compare_from : Memory → ℕ → ℕ → ℕ → ℕ → Sign
compare_from m s1 s2 i zero = null
compare_from m s1 s2 i (suc n) =
    let rest = compare_from m s1 s2 (i + 1) n in
    if m (s1 + i) == m (s2 + i)
    then rest
    else (if ltb (m (s1 + i)) (m (s2 + i)) then negative else positive)

pub memcmp : Memory → ℕ → ℕ → ℕ → Sign
unfolding compare_from
memcmp m s1 s2 n = compare_from m s1 s2 0 n
