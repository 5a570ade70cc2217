-- ===== src/Tty/CharRing.antt =====
-- The input and the output buffer of a terminal: kernel/src/core/drivers/tty/tty.c, which has the
-- same code for both.
pub mod Queue
mod Tests
use alephos.Prelude.{
  ℕ, zero, suc, ◌+◌, ◌-◌, ◌*◌, ◌/◌, ◌%◌, ◌^◌, ◌≤◌, ◌<◌, min, max, bit_and, bit_or, bit_xor,
}
use alephos.Prelude.{
  ◌≡◌, refl, sym, ap, ap₂, ◌∙◌, subst, ◌≢◌, ◌↔◌, ◌⊎◌, inl, inr, Bool, true, false, not, ◌&&◌, ◌||◌,
}
use alephos.Prelude.{Option, none, some, List, [], ◌∷◌, ◌++◌, append-nil, append_assoc, arith}
use alephos.Prelude.{
  ltb, leb, ◌==◌, if◌then◌else◌, is_some, Bool-cases, Option-cases, if_both, ltb→lt, ltb→le, lt→ltb,
  ==→eq, ==→ne, eq→==, ne→==,
}
use alephos.Prelude.{
  length, get_elem?, get_or, set, take, drop, replicate, length-append, length-set,
  length-replicate, length-take, length-drop, take-append-drop, get_or-set_self, get_or-set_ne,
  get_or-replicate, set-get_or, set-set, take-ge, drop-ge, take-of_append, drop-of_append,
}
use alephos.Prelude.{u8, u16, u32, u64, sub32, sub64}

abbrev pub tty_buffer_size : ℕ
tty_buffer_size = 4096

-- One of the two buffers of a terminal with its head, tail and count.
pub record CharRing : Type 0 where
  pub buffer : List ℕ
  pub head : ℕ
  pub tail : ℕ
  pub count : ℕ

-- `tty_input_putc` and `tty_output_putc`
pub putc : CharRing → ℕ → CharRing
putc r c = if leb tty_buffer_size r.count then r else record r {
  buffer = set r.buffer r.tail c;
  tail = u32 (r.tail + 1) % tty_buffer_size;
  count = u32 (r.count + 1);
}

-- `tty_input_getc` and `tty_output_getc`; 0 stands for an empty buffer, too.
pub getc : CharRing → ℕ × CharRing
getc r = if r.count == 0 then (0, r) else (
  get_or r.buffer r.head 0,
  record r { head = u32 (r.head + 1) % tty_buffer_size; count = sub32 r.count 1 },
)

-- The raw loop of `tty_read`.
unfoldable pub read_raw : ℕ → CharRing → List ℕ × CharRing
unfolding getc
read_raw zero r = ([], r)
read_raw (suc n) r =
    let (c, r') = getc r in
    let (cs, end) = read_raw n r' in if ltb 0 r.count then (c ∷ cs, end) else ([], r)
