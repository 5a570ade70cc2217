-- ===== src/Tty/CharRing/Queue.antt =====
-- A terminal's buffer against a queue of at most 4096 characters: kernel/src/core/drivers/tty/tty.c.
use alephos.Prelude.{ℕ, zero, suc, ◌+◌, ◌-◌, ◌%◌, ◌≤◌, ◌<◌}
use alephos.Prelude.{◌≡◌, refl, sym, ap, ap₂, ◌∙◌, inl, inr, false}
use alephos.Prelude.{List, [], ◌∷◌, ◌++◌, arith}
use alephos.Prelude.{ltb, leb, ◌==◌, if◌then◌else◌, Bool-cases, ltb→lt}
use alephos.Prelude.{length, get_or, set, take, drop, length-set}
use alephos.Prelude.{u32, sub32}
use alephos.Circular.{contents, length-contents, contents-set, contents-pos, contents-zero}
use alephos.Tty.CharRing.{CharRing, putc, getc, read_raw}

pub record IsValid (r : CharRing) : Type 0 where
  pub storage : length r.buffer ≡ 4096
  pub first : r.head < 4096
  pub fits : r.count ≤ 4096
  pub last : r.tail ≡ (r.head + r.count) % 4096

-- The characters in the buffer, the oldest first.
abbrev pub chars : CharRing → List ℕ
chars r = contents 4096 r.buffer r.head r.count

-- tty_input_putc, and tty_output_putc, on a valid buffer behaves as a bounded queue: the
-- character is added behind the others, or dropped if 4096 are waiting, and the buffer stays
-- valid.
pub putc-chars :
    (r : CharRing) (c : ℕ)
    → IsValid r
    → IsValid (putc r c)
      × (chars (putc r c) ≡ (if length (chars r) == 4096 then chars r else chars r ++ (c ∷ [])))
unfolding putc
putc-chars r c v = elim (Bool-cases (leb 4096 r.count)) [
  | inl full ↦ rw full (v, ground (arith, length-contents 4096 r.buffer r.head r.count))
  | inr room ↦
      let next : u32 (r.tail + 1) % 4096 ≡ (r.head + suc r.count) % 4096 = omega (arith, v.last) in
      let more : u32 (r.count + 1) ≡ suc r.count = ground (arith, v.fits) in
      let less : (length (chars r) == 4096) ≡ false =
        ground (arith, length-contents 4096 r.buffer r.head r.count) in
      rw (room, less)
        (
          record {
            storage = length-set r.buffer r.tail c ∙ v.storage;
            first = v.first;
            fits = ground arith;
            last = ground arith;
          },
          ap (contents 4096 (set r.buffer r.tail c) r.head) more
              ∙ contents-set 4096 r.buffer r.head r.count c (omega (arith, v.storage)) v.first
                  (ground arith) v.last,
        )
]

getc-chars :
    (r : CharRing)
    → IsValid r
    → 0 < r.count
    → IsValid (getc r).1
      × (chars r ≡ (getc r).0 ∷ chars (getc r).1)
      × ((getc r).1.count + 1 ≡ r.count)
unfolding getc
getc-chars r v h =
    let some_left : (r.count == 0) ≡ false = ground arith in
    let next : u32 (r.head + 1) % 4096 ≡ (r.head + 1) % 4096 = omega (arith, v.first) in
    let less : sub32 r.count 1 ≡ r.count - 1 = omega (arith, v.fits) in
    rw some_left (
      record {
        storage = v.storage;
        first = omega arith;
        fits = omega (arith, v.fits);
        last = omega (arith, v.last, v.fits);
      },
      contents-pos 4096 r.buffer r.head r.count h
          ∙ ap₂ (λ a b. get_or r.buffer r.head 0 ∷ contents 4096 r.buffer a b) (sym next)
              (sym less),
      omega (arith, v.fits),
    )

-- A raw tty_read on a valid buffer returns the oldest characters, up to as many as are asked
-- for, leaves the rest, and keeps the buffer valid.
pub read_raw-chars :
    (n : ℕ) (r : CharRing)
    → IsValid r
    → let (cs, r') = read_raw n r in
      (cs ≡ take n (chars r)) × (chars r' ≡ drop n (chars r)) × IsValid r'
unfolding read_raw
read_raw-chars zero r v = (refl, refl, v)
read_raw-chars (suc n) r v = elim (Bool-cases (ltb 0 r.count)) [
  | inl more ↦
      let (valid, all, less) = getc-chars r v (ltb→lt 0 r.count more) in
      let (front, back, end) = read_raw-chars n (getc r).1 valid in
      rw (more, all) (ap (λ l. (getc r).0 ∷ l) front, back, end)
  | inr empty ↦
      let nothing : chars r ≡ [] = contents-zero 4096 r.buffer r.head r.count (ground arith) in
      rw (empty, nothing) (refl, refl, v)
]
