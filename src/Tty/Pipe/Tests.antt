-- ===== src/Tty/Pipe/Tests.antt =====
-- Small pipes for the tests, and the theorems about pipes at them.
use alephos.Prelude.{ℕ, suc}
use alephos.Prelude.{◌≡◌, refl, ap, true, not, ◌||◌}
use alephos.Prelude.{some, [], ◌∷◌, arith}
use alephos.Prelude.{◌==◌, if◌then◌else◌}
use alephos.Prelude.{replicate, length-replicate}
use alephos.Bits.Flags.{has_flag}
use alephos.Tty.Pipe.{
  Pipe, fresh, read, write, ReadOutcome, WriteOutcome, remove_writer, state_readable,
  state_writable, state_eof, is_readable, is_writable,
}
use alephos.Tty.Pipe.Ring.{IsValid, items, Put, view, put_all}
use alephos.Tty.Pipe.Queue.{
  Take, view_read, take_front, AfterRead, AfterWrite, read_refines, write_refines,
  read-write-IsValid,
}
use alephos.Tty.Pipe.Ends.{
  reader_comes, writer_comes, writer_goes, apply_end, apply_ends, Admits, apply_ends-fresh-Admits,
}
use alephos.Tty.Pipe.Ended.{Uses, unused, then_use, wrote, took, changed, read-after_last_writer}
use alephos.Tty.Pipe.Stream.{
  Session, Steps, here, next, returned, received_some, stream, Steps-keeps,
}

-- two bytes, 7 and 8, and one process at each end
abbrev two : Pipe
two = record {
  buffer = 7 ∷ 8 ∷ replicate 4094 0;
  read_pos = 0;
  write_pos = 2;
  count = 2;
  state = 7;
  readers = 1;
  writers = 1;
}

two-IsValid : IsValid two
two-IsValid = record {
  storage = ap (λ (n : ℕ). suc (suc n)) (length-replicate {A = ℕ} 4094 0);
  head = omega arith;
  fits = omega arith;
  tail = refl;
}

read_one :
    read (some two) true 1 ≡ ReadOutcome.got (7 ∷ []) (record two { read_pos = 1; count = 1 })
unfolding read
read_one = refl

write_one :
    write (some two) (some (9 ∷ []))
    ≡ WriteOutcome.wrote 1
        (record two { buffer = 7 ∷ 8 ∷ 9 ∷ replicate 4093 0; write_pos = 3; count = 3 })
unfolding write
write_one = refl

polls : (is_readable (some two) ≡ true) × (is_writable (some two) ≡ true)
unfolding is_readable is_writable
polls = (refl, refl)

read_refines_example : view_read (read (some two) true 5) ≡ (
    if not true || not (has_flag 7 state_readable)
    then Take.failed
    else take_front (items two) ((1 == 0) || has_flag 7 state_eof) 5)
read_refines_example = read_refines two true 5 two-IsValid

write_refines_example : view (write (some two) (some (9 ∷ []))) ≡ (
    if not (has_flag 7 state_writable) || (1 == 0)
    then Put.failed
    else put_all 4094 (items two) 1 (9 ∷ []) 0)
write_refines_example = write_refines two (9 ∷ []) two-IsValid

read-write-IsValid_example :
    AfterRead IsValid (read (some two) true 5)
    × AfterWrite IsValid (write (some two) (some (9 ∷ [])))
read-write-IsValid_example = read-write-IsValid two true 5 (some (9 ∷ [])) two-IsValid

apply_ends-fresh-Admits_example :
    Admits (apply_ends (reader_comes ∷ writer_comes ∷ writer_goes ∷ []) (fresh []))
apply_ends-fresh-Admits_example =
    apply_ends-fresh-Admits [] (reader_comes ∷ writer_comes ∷ writer_goes ∷ [])

abbrev drained : Pipe
drained = record two { read_pos = 2; count = 0 }

-- a reader and a writer that come back, and a byte that is written and read
abbrev again : Pipe
again = record two {
  buffer = 7 ∷ 8 ∷ 9 ∷ replicate 4093 0;
  read_pos = 3;
  write_pos = 3;
  count = 0;
  state = 15;
}

used_again : Uses (remove_writer drained) again
unfolding apply_end read write
used_again =
    then_use (then_use (then_use unused (changed writer_comes)) (wrote (9 ∷ []) 0 refl))
      (took true 4 {bytes = 9 ∷ []} refl)

read-after_last_writer_example : read (some again) true 4 ≡ (
    if not true || not (has_flag 15 state_readable) then ReadOutcome.failed else ReadOutcome.at_eof)
read-after_last_writer_example = read-after_last_writer drained true 4 refl used_again refl

abbrev session : Session
session = record { pipe = two; unsent = 9 ∷ []; written = 0; received = [] }

abbrev after : Session
after = record {
  pipe = record two {
    buffer = 7 ∷ 8 ∷ 9 ∷ replicate 4093 0;
    read_pos = 1;
    write_pos = 3;
    count = 2;
  };
  unsent = [];
  written = 1;
  received = 7 ∷ [];
}

session_runs : Steps session after
unfolding read write
session_runs = next (next here (returned refl)) (received_some true 1 refl)

Steps-keeps_example : IsValid after.pipe × (stream after ≡ stream session)
Steps-keeps_example = Steps-keeps session_runs two-IsValid
