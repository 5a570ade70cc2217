-- ===== src/Tty/CharRing/Tests.antt =====
-- A terminal's input buffer, nearly full and wrapped: kernel/src/core/drivers/tty/tty.c.
use alephos.Prelude.{◌≡◌, refl}
use alephos.Prelude.{[], ◌∷◌, ◌++◌, arith}
use alephos.Prelude.{◌==◌, if◌then◌else◌}
use alephos.Prelude.{length, take, drop, replicate}
use alephos.Tty.CharRing.{CharRing, putc, read_raw}
use alephos.Tty.CharRing.Queue.{IsValid, chars, putc-chars, read_raw-chars}

-- Two characters wait at the end of the array, one at its front.
abbrev wrapped : CharRing
wrapped = record {
  buffer = 3 ∷ (replicate 4093 0 ++ (1 ∷ 2 ∷ []));
  head = 4094;
  tail = 1;
  count = 3;
}

wrapped-IsValid : IsValid wrapped
wrapped-IsValid = record {
  storage = refl;
  first = omega arith;
  fits = omega arith;
  last = omega arith;
}

putc-chars_example :
    IsValid (putc wrapped 4)
    × (chars (putc wrapped 4)
        ≡ (if length (chars wrapped) == 4096 then chars wrapped else chars wrapped ++ (4 ∷ [])))
putc-chars_example = putc-chars wrapped 4 wrapped-IsValid

read_raw-chars_example :
    let (cs, r') = read_raw 2 wrapped in
    (cs ≡ take 2 (chars wrapped)) × (chars r' ≡ drop 2 (chars wrapped)) × IsValid r'
read_raw-chars_example = read_raw-chars 2 wrapped wrapped-IsValid
