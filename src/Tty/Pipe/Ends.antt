-- ===== src/Tty/Pipe/Ends.antt =====
-- The two ends of a pipe: `pipe_add_reader`, `pipe_add_writer`, `pipe_remove_reader` and
-- `pipe_remove_writer` of kernel/src/core/drivers/tty/pipe.c.
use alephos.Prelude.{ℕ, ◌<◌}
use alephos.Prelude.{◌≡◌, refl, true}
use alephos.Prelude.{List, [], ◌∷◌, arith}
use alephos.Bits.Flags.{has_flag, set_flag, clear_flag, has_flag-set, has_flag-clear}
use alephos.Tty.Pipe.Ring.{IsValid, items}
use alephos.Tty.Pipe.{Pipe, fresh, add_reader, add_writer, remove_reader, remove_writer, read_body}
use alephos.Tty.Pipe.{ReadOutcome, state_eof, state_readable, state_writable}

pub data EndOp : Type 0 where
  reader_comes writer_comes reader_goes writer_goes : EndOp

unfoldable pub apply_end : EndOp → Pipe → Pipe
unfolding add_reader add_writer remove_reader remove_writer
apply_end reader_comes p = add_reader p
apply_end writer_comes p = add_writer p
apply_end reader_goes p = remove_reader p
apply_end writer_goes p = remove_writer p

pub apply_ends : List EndOp → Pipe → Pipe
unfolding apply_end
apply_ends [] p = p
apply_ends (e ∷ es) p = apply_ends es (apply_end e p)

-- A reader that is counted may read, and a writer that is counted may write.
pub record Admits (p : Pipe) : Type 0 where
  pub to_read : 0 < p.readers → has_flag p.state state_readable ≡ true
  pub to_write : 0 < p.writers → has_flag p.state state_writable ≡ true

apply_end-Admits : (e : EndOp) (p : Pipe) → Admits p → Admits (apply_end e p)
unfolding apply_end set_flag clear_flag
apply_end-Admits reader_comes p a = record {
  to_read = λ h. rw (has_flag-set 1 1 p.state) (ground arith);
  to_write = λ h. rw (has_flag-set 2 1 p.state, a.to_write h);
}
apply_end-Admits writer_comes p a = record {
  to_read = λ h. rw (has_flag-set 1 2 p.state, a.to_read h);
  to_write = λ h. rw (has_flag-set 2 2 p.state) (ground arith);
}
apply_end-Admits reader_goes p a = record {
  to_read = λ h. ground (arith, a.to_read);
  to_write = λ h. ground (arith, a.to_write, has_flag-clear 2 1 p.state);
}
apply_end-Admits writer_goes p a = record {
  to_read = λ h. ground (
    arith,
    a.to_read,
    has_flag-set 1 3 (clear_flag p.state state_writable),
    has_flag-clear 1 2 p.state,
  );
  to_write = λ h. ground (arith, a.to_write);
}

pub eof-apply_end :
    (e : EndOp) (p : Pipe)
    → has_flag p.state state_eof ≡ true
    → has_flag (apply_end e p).state state_eof ≡ true
unfolding apply_end
eof-apply_end reader_comes p h = rw (has_flag-set 3 1 p.state, h)
eof-apply_end writer_comes p h = rw (has_flag-set 3 2 p.state, h)
eof-apply_end reader_goes p h = ground (arith, has_flag-clear 3 1 p.state)
eof-apply_end writer_goes p h = ground (arith, has_flag-set 3 3 (clear_flag p.state state_writable))

apply_ends-Admits : (es : List EndOp) (p : Pipe) → Admits p → Admits (apply_ends es p)
unfolding apply_ends
apply_ends-Admits [] p a = a
apply_ends-Admits (e ∷ es) p a = apply_ends-Admits es (apply_end e p) (apply_end-Admits e p a)

-- However readers and writers come and go after pipe_create, a pipe with a counted reader has
-- the readable flag and one with a counted writer has the writable flag.
pub apply_ends-fresh-Admits :
    (bytes : List ℕ) (es : List EndOp) → Admits (apply_ends es (fresh bytes))
unfolding has_flag
apply_ends-fresh-Admits bytes es =
    apply_ends-Admits es (fresh bytes) (record { to_read = λ h. refl; to_write = λ h. refl })

pub eof-remove_writer :
    (p : Pipe) → p.writers ≡ 1 → has_flag (remove_writer p).state state_eof ≡ true
unfolding remove_writer
eof-remove_writer p h = ground (arith, has_flag-set 3 3 (clear_flag p.state state_writable))

pub read_body-eof :
    (q : Pipe) (n : ℕ)
    → q.count ≡ 0
    → has_flag q.state state_eof ≡ true
    → read_body q n ≡ ReadOutcome.at_eof
unfolding read_body
read_body-eof q n empty eof = ground arith

-- The ends have no part in the ring.
pub items-apply_end : (e : EndOp) (p : Pipe) → items (apply_end e p) ≡ items p
unfolding apply_end
items-apply_end reader_comes p = refl
items-apply_end writer_comes p = refl
items-apply_end reader_goes p = ground arith
items-apply_end writer_goes p = ground arith

pub apply_end-IsValid : (e : EndOp) (p : Pipe) → IsValid p → IsValid (apply_end e p)
unfolding apply_end
apply_end-IsValid reader_comes p v = ground arith
apply_end-IsValid writer_comes p v = ground arith
apply_end-IsValid reader_goes p v = ground arith
apply_end-IsValid writer_goes p v = ground arith
