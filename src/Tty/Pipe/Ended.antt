-- ===== src/Tty/Pipe/Ended.antt =====
-- The end of the stream of a pipe: the EOF flag of kernel/src/core/drivers/tty/pipe.c.
use alephos.Prelude.{ℕ, zero, suc, ◌+◌}
use alephos.Prelude.{◌≡◌, refl, ap, ◌∙◌, subst, inl, inr, Bool, true, not, ◌||◌}
use alephos.Prelude.{some, List, [], ◌∷◌}
use alephos.Prelude.{ltb, ◌==◌, if◌then◌else◌, Bool-cases, if_both}
use alephos.Bits.Flags.{has_flag}
use alephos.Tty.Pipe.{
  Pipe, take_bytes, put_byte, read_body, read, write_bytes, remove_writer, ReadOutcome,
  WriteOutcome, state_eof, state_readable,
}
use alephos.Tty.Pipe.Queue.{AfterRead, AfterWrite}
use alephos.Tty.Pipe.Ends.{EndOp, apply_end, eof-apply_end, eof-remove_writer, read_body-eof}

-- One use of a pipe: a read that returned bytes, the part of a write up to where it waits or
-- returns, whatever it writes, or an end that comes or goes.
pub data Use (p : Pipe) : Pipe → Type 0 where
  took :
      (dest : Bool) (n : ℕ) {bytes : List ℕ} {q : Pipe}
      → read (some p) dest n ≡ ReadOutcome.got bytes q
      → Use p q
  wrote :
      (src : List ℕ) (written : ℕ) {w : ℕ} {q : Pipe}
      → write_bytes p src written ≡ WriteOutcome.wrote w q
      → Use p q
  stalled :
      (src : List ℕ) (written : ℕ) {w : ℕ} {rest : List ℕ} {q : Pipe}
      → write_bytes p src written ≡ WriteOutcome.stalls w rest q
      → Use p q
  changed : (e : EndOp) → Use p (apply_end e p)

pub data Uses (p : Pipe) : Pipe → Type 0 where
  unused : Uses p p
  then_use : {q r : Pipe} → Uses p q → Use q r → Uses p r

-- The state's flags are these.
abbrev Flags : ℕ → Pipe → Type 0
Flags f p = p.state ≡ f

take_bytes-Flags : (n : ℕ) (p : Pipe) → Flags p.state (take_bytes n p).1
unfolding take_bytes
take_bytes-Flags zero p = refl
take_bytes-Flags (suc n) p = take_bytes-Flags n _

read_body-Flags : (p : Pipe) (n : ℕ) → AfterRead (Flags p.state) (read_body p n)
unfolding read_body
read_body-Flags p n = elim (Bool-cases (p.count == 0)) [
  | inl empty ↦ rw empty (
      if_both (AfterRead (Flags p.state)) ((p.writers == 0) || has_flag p.state state_eof)
        {x = ReadOutcome.at_eof} {y = ReadOutcome.waits} tt tt)
  | inr full ↦ rw full (take_bytes-Flags (if ltb n p.count then n else p.count) p)
]

read-Flags : (p : Pipe) (dest : Bool) (n : ℕ) → AfterRead (Flags p.state) (read (some p) dest n)
unfolding read
read-Flags p dest n =
    if_both (AfterRead (Flags p.state)) (not dest || not (has_flag p.state state_readable))
      {x = ReadOutcome.failed} {y = read_body p n} tt (read_body-Flags p n)

write_bytes-Flags :
    (p : Pipe) (src : List ℕ) (written : ℕ) → AfterWrite (Flags p.state) (write_bytes p src written)
unfolding write_bytes put_byte
write_bytes-Flags p [] written = refl
write_bytes-Flags p (b ∷ src) written =
    let short : WriteOutcome =
      if ltb 0 written then WriteOutcome.wrote written p else WriteOutcome.failed in
    if_both (AfterWrite (Flags p.state)) (p.count == 4096)
      {x = if p.readers == 0 then short else WriteOutcome.stalls written (b ∷ src) p}
      {y = write_bytes (put_byte p b) src (written + 1)}
      (if_both (AfterWrite (Flags p.state)) (p.readers == 0) {x = short}
        {y = WriteOutcome.stalls written (b ∷ src) p}
        (if_both (AfterWrite (Flags p.state)) (ltb 0 written) {x = WriteOutcome.wrote written p}
          {y = WriteOutcome.failed} refl tt)
        refl)
      (write_bytes-Flags (put_byte p b) src (written + 1))

-- The flag of the end of the stream
abbrev at_end : Pipe → Bool
at_end p = has_flag p.state state_eof

kept : (p q : Pipe) → Flags p.state q → at_end p ≡ true → at_end q ≡ true
kept p q e h = ap (λ f. has_flag f state_eof) e ∙ h

Use-keeps : (p q : Pipe) → Use p q → at_end p ≡ true → at_end q ≡ true
Use-keeps p q (took dest n e) h =
    kept p q (subst (AfterRead (Flags p.state)) e (read-Flags p dest n)) h
Use-keeps p q (wrote src written e) h =
    kept p q (subst (AfterWrite (Flags p.state)) e (write_bytes-Flags p src written)) h
Use-keeps p q (stalled src written e) h =
    kept p q (subst (AfterWrite (Flags p.state)) e (write_bytes-Flags p src written)) h
Use-keeps p _ (changed e) h = eof-apply_end e p h

Uses-keeps : (p r : Pipe) → Uses p r → at_end p ≡ true → at_end r ≡ true
Uses-keeps p _ unused h = h
Uses-keeps p r (then_use {q} uses last) h = Use-keeps q r last (Uses-keeps p q uses h)

-- Once its last writer has left, a pipe stays at its end, whatever reads, writes and comings
-- and goings of ends follow, also when writers have come back: whenever it is empty, a reader
-- that is not refused gets 0 at once and never waits.
pub read-after_last_writer :
    (p : Pipe) {q : Pipe} (dest : Bool) (n : ℕ)
    → p.writers ≡ 1
    → Uses (remove_writer p) q
    → q.count ≡ 0
    → read (some q) dest n ≡ (
        if not dest || not (has_flag q.state state_readable)
        then ReadOutcome.failed
        else ReadOutcome.at_eof)
unfolding read
read-after_last_writer p {q} dest n last uses empty =
    rw (read_body-eof q n empty (Uses-keeps (remove_writer p) q uses (eof-remove_writer p last)))
