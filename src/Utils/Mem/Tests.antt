-- ===== src/Utils/Mem/Tests.antt =====
-- Memory whose byte at an address is the address: kernel/src/utils/mem.c on overlapping ranges.
use alephos.Prelude.{◌+◌}
use alephos.Prelude.{◌≡◌, refl, inr}
use alephos.Prelude.{arith}
use alephos.Prelude.{ltb, ◌==◌, if◌then◌else◌}
use alephos.Utils.Mem.{Memory, null, negative, positive, memcpy, memmove, memcmp}
use alephos.Utils.Mem.Copies.{copied, memmove-copied}
use alephos.Utils.Mem.Compares.{memcmp-first, memcmp-memcpy}

abbrev identity : Memory
identity = λ a. a

memcpy_smears : memcpy identity 11 10 3 13 ≡ 10
unfolding memcpy
memcpy_smears = refl

memmove-copied_example : memmove identity 11 10 3 13 ≡ copied identity 11 10 3 13
memmove-copied_example = memmove-copied identity 11 10 3 13

memcmp_first_test : memcmp identity 10 20 4 ≡ (
    if 0 == 4
    then null
    else (if ltb (identity (10 + 0)) (identity (20 + 0)) then negative else positive))
memcmp_first_test =
    memcmp-first identity 10 20 4 0 (omega arith) (λ k l. absurd (omega arith))
      (inr (λ e. absurd (omega arith)))

memcmp_test : memcmp (memcpy identity 20 10 4) 20 10 4 ≡ null
memcmp_test = memcmp-memcpy identity 20 10 4 (inr (omega arith))
