-- ===== src/Tty/Pipe/Queue.antt =====
-- `pipe_read` and `pipe_write` against a bounded queue of bytes: kernel/src/core/drivers/tty/pipe.c.
use alephos.Prelude.{ℕ, ◌+◌, ◌-◌, ◌<◌, min}
use alephos.Prelude.{◌≡◌, refl, ap, inl, inr, Bool, true, false, not, ◌||◌}
use alephos.Prelude.{Option, none, some, List, [], ◌∷◌, ◌++◌, arith}
use alephos.Prelude.{ltb, ◌==◌, if◌then◌else◌, Bool-cases, if_both, ==→eq, ==→ne}
use alephos.Prelude.{length, take, drop, take-of_append, drop-of_append}
use alephos.Bits.Flags.{has_flag}
use alephos.Circular.{length-contents, contents-zero}
use alephos.Tty.Pipe.{Pipe, put_byte, write_bytes, ReadOutcome, read_body, read}
use alephos.Tty.Pipe.{WriteOutcome, write, state_eof, state_readable, state_writable}
use alephos.Tty.Pipe.Ring.{
  IsValid, items, Took, take_bytes-Took, put_byte-IsValid, Put, view, put_all,
}
use alephos.Tty.Pipe.Ring.{write_bytes-put_all}

-- What a client may see of a read.
pub data Take : Type 0 where
  got : List ℕ → List ℕ → Take
  at_eof waits failed : Take

abbrev pub view_read : ReadOutcome → Take
view_read (ReadOutcome.got bytes p) = Take.got bytes (items p)
view_read ReadOutcome.at_eof = Take.at_eof
view_read ReadOutcome.waits = Take.waits
view_read ReadOutcome.failed = Take.failed

-- A queue gives its oldest bytes, up to `n` of them. An empty one ends the stream if it is
-- closed, and makes its reader wait if it is not.
unfoldable pub take_front : List ℕ → Bool → ℕ → Take
take_front [] closed n = if closed then Take.at_eof else Take.waits
take_front (b ∷ q) closed n = Take.got (take n (b ∷ q)) (drop n (b ∷ q))

take_front_pos :
    (q : List ℕ) (closed : Bool) (n : ℕ)
    → 0 < length q
    → take_front q closed n ≡ Take.got (take n q) (drop n q)
unfolding take_front
take_front_pos [] closed n h = absurd (omega arith)
take_front_pos (b ∷ q) closed n h = refl

view_empty :
    (closed : Bool) (n : ℕ)
    → view_read (if closed then ReadOutcome.at_eof else ReadOutcome.waits) ≡ take_front [] closed n
unfolding take_front
view_empty true n = refl
view_empty false n = refl

closed_end : Pipe → Bool
closed_end p = (p.writers == 0) || has_flag p.state state_eof

view-Took :
    {k : ℕ} (n : ℕ) {p : Pipe} {bytes : List ℕ} {q : Pipe}
    → Took k p bytes q
    → k ≡ min n p.count
    → Take.got bytes (items q) ≡ Take.got (take n (items p)) (drop n (items p))
view-Took n {p} {bytes} {q} took e =
    let size : length bytes ≡ min n (length (bytes ++ items q)) =
      omega (
        arith,
        took.size,
        ap length took.order,
        length-contents 4096 p.buffer p.read_pos p.count,
      ) in
    rw (← took.order, take-of_append n bytes (items q) size, drop-of_append n bytes (items q) size)

read_body_refines :
    (p : Pipe) (n : ℕ)
    → IsValid p
    → view_read (read_body p n) ≡ take_front (items p) (closed_end p) n
unfolding read_body closed_end
read_body_refines p n v = elim (Bool-cases (p.count == 0)) [
  | inl empty ↦
      rw (empty, contents-zero 4096 p.buffer p.read_pos p.count (==→eq _ _ empty))
        (view_empty (closed_end p) n)
  | inr full ↦
      let k : ℕ = if ltb n p.count then n else p.count in
      let least : k ≡ min n p.count = ground arith in
      let size : 0 < length (items p) =
        omega (arith, ==→ne _ _ full, length-contents 4096 p.buffer p.read_pos p.count) in
      rw (full, take_front_pos (items p) (closed_end p) n size)
        (view-Took n (take_bytes-Took k p v (ground arith)) least)
]

-- pipe_read on a valid ring fails without a buffer or once the pipe is not readable; otherwise
-- it behaves as a bounded queue: it returns the oldest bytes, up to n of them, and leaves the
-- rest, and on an empty pipe it returns 0 if there is no writer or the EOF flag is set and
-- waits if not.
pub read_refines :
    (p : Pipe) (dest : Bool) (n : ℕ)
    → IsValid p
    → view_read (read (some p) dest n) ≡ (
        if not dest || not (has_flag p.state state_readable)
        then Take.failed
        else take_front (items p) ((p.writers == 0) || has_flag p.state state_eof) n)
unfolding read closed_end
read_refines p dest n v = ground (arith, read_body_refines p n v)

-- pipe_write on a valid ring fails once the pipe is not writable or has no reader; otherwise it
-- behaves as a bounded queue: it appends what fits in 4096 bytes and waits with the bytes that
-- did not fit.
pub write_refines :
    (p : Pipe) (src : List ℕ)
    → IsValid p
    → view (write (some p) (some src)) ≡ (
        if not (has_flag p.state state_writable) || (p.readers == 0)
        then Put.failed
        else put_all (4096 - p.count) (items p) p.readers src 0)
unfolding write
write_refines p src v = ground (arith, write_bytes-put_all p src 0 v)

-- What holds of the pipe that a call leaves.
abbrev pub AfterRead : (Pipe → Type 0) → ReadOutcome → Type 0
AfterRead P (ReadOutcome.got bytes p) = P p
AfterRead P ReadOutcome.at_eof = Unit
AfterRead P ReadOutcome.waits = Unit
AfterRead P ReadOutcome.failed = Unit

abbrev pub AfterWrite : (Pipe → Type 0) → WriteOutcome → Type 0
AfterWrite P (WriteOutcome.wrote n p) = P p
AfterWrite P (WriteOutcome.stalls n src p) = P p
AfterWrite P WriteOutcome.failed = Unit

pub write_bytes-IsValid :
    (p : Pipe) (src : List ℕ) (written : ℕ)
    → IsValid p
    → AfterWrite IsValid (write_bytes p src written)
unfolding write_bytes
write_bytes-IsValid p [] written v = v
write_bytes-IsValid p (b ∷ src) written v = elim (Bool-cases (p.count == 4096)) [
  | inl full ↦
      let short : WriteOutcome =
        if ltb 0 written then WriteOutcome.wrote written p else WriteOutcome.failed in
      rw full (
        if_both (AfterWrite IsValid) (p.readers == 0) {x = short}
          {y = WriteOutcome.stalls written (b ∷ src) p}
          (if_both (AfterWrite IsValid) (ltb 0 written) {x = WriteOutcome.wrote written p}
            {y = WriteOutcome.failed} v tt)
          v)
  | inr room ↦ rw room (
      write_bytes-IsValid (put_byte p b) src (written + 1)
        (put_byte-IsValid p b v (ground (arith, v.fits))))
]

read_body-IsValid : (p : Pipe) (n : ℕ) → IsValid p → AfterRead IsValid (read_body p n)
unfolding read_body closed_end
read_body-IsValid p n v = elim (Bool-cases (p.count == 0)) [
  | inl empty ↦ rw empty (
      if_both (AfterRead IsValid) (closed_end p) {x = ReadOutcome.at_eof} {y = ReadOutcome.waits} tt
        tt)
  | inr full ↦
      let k : ℕ = if ltb n p.count then n else p.count in
      rw full ((take_bytes-Took k p v (ground arith)).valid)
]

pub read-IsValid :
    (p : Pipe) (dest : Bool) (n : ℕ) → IsValid p → AfterRead IsValid (read (some p) dest n)
unfolding read
read-IsValid p dest n v =
    if_both (AfterRead IsValid) (not dest || not (has_flag p.state state_readable))
      {x = ReadOutcome.failed} {y = read_body p n} tt (read_body-IsValid p n v)

write-IsValid :
    (p : Pipe) (src : Option (List ℕ)) → IsValid p → AfterWrite IsValid (write (some p) src)
unfolding write
write-IsValid p none v = tt
write-IsValid p (some src) v =
    let go = write_bytes-IsValid p src 0 v in
    if_both (AfterWrite IsValid) (not (has_flag p.state state_writable)) {x = WriteOutcome.failed}
      {y = if p.readers == 0 then WriteOutcome.failed else write_bytes p src 0} tt
      (if_both (AfterWrite IsValid) (p.readers == 0) {x = WriteOutcome.failed}
        {y = write_bytes p src 0} tt go)

-- No call of `pipe_read` or `pipe_write`, whatever its outcome, takes an index out of the buffer
-- or lets the count and the two positions disagree.
pub read-write-IsValid :
    (p : Pipe) (dest : Bool) (n : ℕ) (src : Option (List ℕ))
    → IsValid p
    → AfterRead IsValid (read (some p) dest n) × AfterWrite IsValid (write (some p) src)
read-write-IsValid p dest n src v = (read-IsValid p dest n v, write-IsValid p src v)
