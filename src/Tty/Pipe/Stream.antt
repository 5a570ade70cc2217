-- ===== src/Tty/Pipe/Stream.antt =====
-- A writer and readers of one pipe, call by call: kernel/src/core/drivers/tty/pipe.c.
-- Each step is a call, or the part of a call up to where it waits, which no other interrupts; the
-- code takes no lock for this.
use alephos.Prelude.{ℕ, ◌+◌, ◌-◌}
use alephos.Prelude.{◌≡◌, refl, sym, ap, ◌∙◌, subst, inl, inr, Bool, true, false}
use alephos.Prelude.{some, List, [], ◌∷◌, ◌++◌, append-nil, append_assoc, arith}
use alephos.Prelude.{leb, if◌then◌else◌, Bool-cases}
use alephos.Prelude.{length, take, drop, take-append-drop, drop-ge}
use alephos.Tty.Pipe.{Pipe, read, write_bytes, ReadOutcome, WriteOutcome}
use alephos.Tty.Pipe.Ring.{IsValid, items, Put, view, put_all, write_bytes-put_all}
use alephos.Tty.Pipe.Queue.{
  write_bytes-IsValid, read-IsValid, AfterRead, AfterWrite, read_refines, view_read, Take,
  take_front,
}
use alephos.Tty.Pipe.Ends.{EndOp, apply_end, items-apply_end, apply_end-IsValid}

-- The pipe, what the writer has still to write and has written in its call, and all that
-- readers got so far.
pub record Session : Type 0 where
  pub pipe : Pipe
  pub unsent : List ℕ
  pub written : ℕ
  pub received : List ℕ

pub data Step : Session → Session → Type 0 where
  -- the writer goes on and has to wait
  stalled :
      {s : Session} {w : ℕ} {src : List ℕ} {q : Pipe}
      → write_bytes s.pipe s.unsent s.written ≡ WriteOutcome.stalls w src q
      → Step s (record s { pipe = q; unsent = src; written = w })
  -- the writer's call returns
  returned :
      {s : Session} {w : ℕ} {q : Pipe}
      → write_bytes s.pipe s.unsent s.written ≡ WriteOutcome.wrote w q
      → Step s (record s { pipe = q; unsent = drop (w - s.written) s.unsent; written = w })
  -- a reader's call
  received_some :
      {s : Session} (dest : Bool) (n : ℕ) {bytes : List ℕ} {q : Pipe}
      → read (some s.pipe) dest n ≡ ReadOutcome.got bytes q
      → Step s (record s { pipe = q; received = s.received ++ bytes })
  -- an end comes or goes
  changed : {s : Session} (e : EndOp) → Step s (record s { pipe = apply_end e s.pipe })

pub data Steps (s : Session) : Session → Type 0 where
  here : Steps s s
  next : {t u : Session} → Steps s t → Step t u → Steps s u

-- every byte of the session, in the order of the stream
abbrev pub stream : Session → List ℕ
stream s = s.received ++ (items s.pipe ++ s.unsent)

put_all-stalls :
    (room : ℕ) (q : List ℕ) (readers : ℕ) (src : List ℕ) (written w : ℕ) (rest q' : List ℕ)
    → put_all room q readers src written ≡ Put.stalls w rest q'
    → q' ++ rest ≡ q ++ src
unfolding put_all
put_all-stalls room q readers src written w rest q' e =
    ground (arith, append_assoc q (take room src) (drop room src), take-append-drop room src)

put_all-wrote :
    (room : ℕ) (q : List ℕ) (readers : ℕ) (src : List ℕ) (written w : ℕ) (q' : List ℕ)
    → put_all room q readers src written ≡ Put.wrote w q'
    → q' ++ drop (w - written) src ≡ q ++ src
unfolding put_all
put_all-wrote room q readers src written w q' e = elim (Bool-cases (leb (length src) room)) [
  | inl fits ↦
      let all : w - written ≡ length src = ground arith in
      rw (all, drop-ge (length src) src (omega arith)) (ground (arith, append-nil (q ++ src)))
  | inr over ↦
      let count : w ≡ written + room = ground arith in
      let left : q' ≡ q ++ take room src = ground arith in
      let cut : w - written ≡ room = omega arith in
      rw (cut, left, append_assoc q (take room src) (drop room src), take-append-drop room src)
]

stalls-stream :
    (p : Pipe) (src : List ℕ) (written w : ℕ) (rest : List ℕ) (q : Pipe)
    → IsValid p
    → write_bytes p src written ≡ WriteOutcome.stalls w rest q
    → items q ++ rest ≡ items p ++ src
stalls-stream p src written w rest q v e =
    put_all-stalls (4096 - p.count) (items p) p.readers src written w rest (items q)
      (sym (write_bytes-put_all p src written v) ∙ ap view e)

wrote-stream :
    (p : Pipe) (src : List ℕ) (written w : ℕ) (q : Pipe)
    → IsValid p
    → write_bytes p src written ≡ WriteOutcome.wrote w q
    → items q ++ drop (w - written) src ≡ items p ++ src
wrote-stream p src written w q v e =
    put_all-wrote (4096 - p.count) (items p) p.readers src written w (items q)
      (sym (write_bytes-put_all p src written v) ∙ ap view e)

take_front-got :
    (q : List ℕ) (closed : Bool) (n : ℕ) (bytes q' : List ℕ)
    → take_front q closed n ≡ Take.got bytes q'
    → bytes ++ q' ≡ q
unfolding take_front
take_front-got [] closed n bytes q' e = ground arith
take_front-got (b ∷ q) closed n bytes q' e = ground (arith, take-append-drop n (b ∷ q))

unless_failed :
    (refused : Bool) (t : Take) {bytes q : List ℕ}
    → (if refused then Take.failed else t) ≡ Take.got bytes q
    → t ≡ Take.got bytes q
unless_failed true t e = cc
unless_failed false t e = e

got-stream :
    (p : Pipe) (dest : Bool) (n : ℕ) (bytes : List ℕ) (q : Pipe)
    → IsValid p
    → read (some p) dest n ≡ ReadOutcome.got bytes q
    → bytes ++ items q ≡ items p
got-stream p dest n bytes q v e =
    take_front-got (items p) _ n bytes (items q)
      (unless_failed _ _ (sym (read_refines p dest n v) ∙ ap view_read e))

Step-keeps : {s t : Session} → Step s t → IsValid s.pipe → IsValid t.pipe × (stream t ≡ stream s)
Step-keeps (stalled {s} {w} {src} {q} e) v = (
  subst (AfterWrite IsValid) e (write_bytes-IsValid s.pipe s.unsent s.written v),
  ap (λ l. s.received ++ l) (stalls-stream s.pipe s.unsent s.written w src q v e),
)
Step-keeps (returned {s} {w} {q} e) v = (
  subst (AfterWrite IsValid) e (write_bytes-IsValid s.pipe s.unsent s.written v),
  ap (λ l. s.received ++ l) (wrote-stream s.pipe s.unsent s.written w q v e),
)
Step-keeps (received_some {s} dest n {bytes} {q} e) v = (
  subst (AfterRead IsValid) e (read-IsValid s.pipe dest n v),
  append_assoc s.received bytes (items q ++ s.unsent)
      ∙ ap (λ l. s.received ++ l)
          (sym (append_assoc bytes (items q) s.unsent)
            ∙ ap (λ l. l ++ s.unsent) (got-stream s.pipe dest n bytes q v e)),
)
Step-keeps (changed {s} e) v = (
  apply_end-IsValid e s.pipe v,
  ap (λ l. s.received ++ (l ++ s.unsent)) (items-apply_end e s.pipe),
)

-- A writer's call, readers' calls and ends that come and go, in any order, where each call, or
-- its part up to a wait, excludes the others, which the code takes no lock for: none loses,
-- repeats or reorders a byte. What was received, what is in the pipe and what is still to be
-- written make up the stream of the start, and the ring stays valid.
pub Steps-keeps :
    {s t : Session} → Steps s t → IsValid s.pipe → IsValid t.pipe × (stream t ≡ stream s)
Steps-keeps here v = (v, refl)
Steps-keeps (next steps step) v =
    let (mid, same) = Steps-keeps steps v in
    let (end, step_same) = Step-keeps step mid in (end, step_same ∙ same)
