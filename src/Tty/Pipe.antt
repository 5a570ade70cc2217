-- ===== src/Tty/Pipe.antt =====
-- kernel/src/core/drivers/tty/pipe.c and pipe.h: a byte pipe over a ring of 4096 bytes.
-- A function that updates `*pipe` returns the new pipe. A loop that waits for another process
-- ends in an outcome of its own: the caller goes round again once the pipe has changed.
pub mod Ring
pub mod Queue
pub mod Ends
pub mod Ended
pub mod Stream
mod Tests
use alephos.Prelude.{
  ℕ, zero, suc, ◌+◌, ◌-◌, ◌*◌, ◌/◌, ◌%◌, ◌^◌, ◌≤◌, ◌<◌, min, max, bit_and, bit_or, bit_xor,
}
use alephos.Prelude.{
  ◌≡◌, refl, sym, ap, ap₂, ◌∙◌, subst, ◌≢◌, ◌↔◌, ◌⊎◌, inl, inr, Bool, true, false, not, ◌&&◌, ◌||◌,
}
use alephos.Prelude.{Option, none, some, List, [], ◌∷◌, ◌++◌, append-nil, append_assoc, arith}
use alephos.Prelude.{
  ltb, leb, ◌==◌, if◌then◌else◌, is_some, Bool-cases, Option-cases, ltb→lt, ltb→le, lt→ltb, ==→eq,
  ==→ne, eq→==, ne→==,
}
use alephos.Prelude.{
  length, get_elem?, get_or, set, take, drop, replicate, length-append, length-set,
  length-replicate, length-take, length-drop, take-append-drop, get_or-set_self, get_or-set_ne,
  get_or-replicate, set-get_or, set-set,
}
use alephos.Prelude.{u8, u16, u32, u64, sub32, sub64}
use alephos.Allocator.{Allocator}
use alephos.Bits.Flags.{has_flag, set_flag, clear_flag}

abbrev pub pipe_buffer_size : ℕ
pipe_buffer_size = 4096

abbrev pub state_open : ℕ
state_open = 1

abbrev pub state_readable : ℕ
state_readable = 2

abbrev pub state_writable : ℕ
state_writable = 4

abbrev pub state_eof : ℕ
state_eof = 8

-- `pipe_t`
pub record Pipe : Type 0 where
  pub buffer : List ℕ
  pub read_pos : ℕ
  pub write_pos : ℕ
  pub count : ℕ
  pub state : ℕ
  pub readers : ℕ
  pub writers : ℕ

-- What `pipe_create` sets, over the bytes that the buffer happens to hold.
abbrev pub fresh : List ℕ → Pipe
fresh bytes = record {
  buffer = bytes;
  read_pos = 0;
  write_pos = 0;
  count = 0;
  state = bit_or (bit_or state_open state_readable) state_writable;
  readers = 0;
  writers = 0;
}

-- `sizeof(pipe_t)`: a pointer and six words of 32 bits
abbrev sizeof_pipe : ℕ
sizeof_pipe = 32

-- A pipe with the addresses of its two blocks.
pub record Handle : Type 0 where
  pub self : ℕ
  pub buffer_at : ℕ
  pub pipe : Pipe

module _ (a : Allocator) where
  open a use {State, malloc, free}

  with_buffer : List ℕ → ℕ → Option ℕ × State → Option Handle × State
  with_buffer bytes p (none, h) = (none, free p h)
  with_buffer bytes p (some b, h) =
      (some (record { self = p; buffer_at = b; pipe = fresh bytes }), h)

  with_self : List ℕ → Option ℕ × State → Option Handle × State
  with_self bytes (none, h) = (none, h)
  with_self bytes (some p, h) = with_buffer bytes p (malloc pipe_buffer_size h)

  pub create : List ℕ → State → Option Handle × State
  unfolding with_buffer with_self
  create bytes h = with_self bytes (malloc sizeof_pipe h)

  pub destroy : Option Handle → State → State
  destroy none h = h
  destroy (some d) h = free d.self (free d.buffer_at h)

-- `(pos + 1) & (PIPE_BUFFER_SIZE - 1)`
pub next_pos : ℕ → ℕ
next_pos pos = bit_and (u32 (pos + 1)) (pipe_buffer_size - 1)

-- The copying loop of `pipe_read`: `n` rounds left, and the bytes in the order of `dest`.
pub take_bytes : ℕ → Pipe → List ℕ × Pipe
unfolding next_pos
take_bytes zero p = ([], p)
take_bytes (suc n) p =
    let (bytes, q) =
      take_bytes n (record p { read_pos = next_pos p.read_pos; count = sub32 p.count 1 }) in
    (get_or p.buffer p.read_pos 0 ∷ bytes, q)

pub data ReadOutcome : Type 0 where
  -- the return value is the number of bytes in `dest`
  got : List ℕ → Pipe → ReadOutcome
  -- 0, before anything was copied
  at_eof : ReadOutcome
  -- the loop `while (pipe->count == 0)` goes round
  waits : ReadOutcome
  -- -1
  failed : ReadOutcome

-- From the head of the waiting loop on.
pub read_body : Pipe → ℕ → ReadOutcome
unfolding take_bytes has_flag
read_body p n =
    if p.count == 0
    then (if (p.writers == 0) || has_flag p.state state_eof
        then ReadOutcome.at_eof
        else ReadOutcome.waits)
    else (let (bytes, q) = take_bytes (if ltb n p.count then n else p.count) p in got bytes q)

-- `dest` says that the caller's buffer is not NULL.
pub read : Option Pipe → (dest : Bool) → ℕ → ReadOutcome
unfolding read_body has_flag
read none dest n = ReadOutcome.failed
read (some p) dest n =
    if not dest || not (has_flag p.state state_readable) then ReadOutcome.failed else read_body p n

-- One round of the writing loop, with room for the byte.
pub put_byte : Pipe → ℕ → Pipe
unfolding next_pos
put_byte p b = record p {
  buffer = set p.buffer p.write_pos b;
  write_pos = next_pos p.write_pos;
  count = u32 (p.count + 1);
}

pub data WriteOutcome : Type 0 where
  -- the return value
  wrote : ℕ → Pipe → WriteOutcome
  -- `while (pipe->count == PIPE_BUFFER_SIZE)` goes round: bytes written so far, and those left
  stalls : ℕ → List ℕ → Pipe → WriteOutcome
  -- -1
  failed : WriteOutcome

-- The writing loop: the bytes of `src` left, and `bytes_written`.
pub write_bytes : Pipe → List ℕ → ℕ → WriteOutcome
unfolding put_byte
write_bytes p [] written = wrote written p
write_bytes p (b ∷ src) written =
    let rest = write_bytes (put_byte p b) src (written + 1) in
    if p.count == pipe_buffer_size
    then (if p.readers == 0
        then (if ltb 0 written then wrote written p else WriteOutcome.failed)
        else stalls written (b ∷ src) p)
    else rest

-- `src` is the caller's buffer, or NULL.
pub write : Option Pipe → Option (List ℕ) → WriteOutcome
unfolding write_bytes has_flag
write none src = WriteOutcome.failed
write (some p) none = WriteOutcome.failed
write (some p) (some src) =
    if not (has_flag p.state state_writable)
    then WriteOutcome.failed
    else (if p.readers == 0 then WriteOutcome.failed else write_bytes p src 0)

pub add_reader : Pipe → Pipe
unfolding set_flag
add_reader p = record p { readers = u32 (p.readers + 1); state = set_flag p.state state_readable }

pub add_writer : Pipe → Pipe
unfolding set_flag
add_writer p = record p { writers = u32 (p.writers + 1); state = set_flag p.state state_writable }

pub remove_reader : Pipe → Pipe
unfolding clear_flag
remove_reader p =
    if p.readers == 0
    then p
    else (let left = p.readers - 1 in
        record p {
          readers = left;
          state = if left == 0 then clear_flag p.state state_readable else p.state;
        })

pub remove_writer : Pipe → Pipe
unfolding set_flag clear_flag
remove_writer p =
    if p.writers == 0
    then p
    else (let left = p.writers - 1 in
        record p {
          writers = left;
          state =
              if left == 0 then set_flag (clear_flag p.state state_writable) state_eof else p.state;
        })

pub is_readable : Option Pipe → Bool
unfolding has_flag
is_readable none = false
is_readable (some p) = has_flag p.state state_readable && (ltb 0 p.count || ltb 0 p.writers)

pub is_writable : Option Pipe → Bool
unfolding has_flag
is_writable none = false
is_writable (some p) =
    has_flag p.state state_writable && (ltb 0 p.readers && ltb p.count pipe_buffer_size)
