-- ===== src/Tty/Terminal.antt =====
-- kernel/src/core/drivers/tty/tty.c and tty.h: terminals. A `char` is its byte. What the code
-- calls outside this file, the callbacks of a terminal and `clear_screen`, acts on a machine:
-- the framebuffer, if there is one, beside a world that is a parameter.
pub mod Output
pub mod Cursor
pub mod Escape
mod Tests
use alephos.Prelude.{
  ℕ, zero, suc, ◌+◌, ◌-◌, ◌*◌, ◌/◌, ◌%◌, ◌^◌, ◌≤◌, ◌<◌, min, max, bit_and, bit_or, bit_xor,
}
use alephos.Prelude.{
  ◌≡◌, refl, sym, ap, ap₂, ◌∙◌, subst, ◌≢◌, ◌↔◌, ◌⊎◌, inl, inr, Bool, true, false, not, ◌&&◌, ◌||◌,
}
use alephos.Prelude.{Option, none, some, List, [], ◌∷◌, ◌++◌, append-nil, append_assoc, arith}
use alephos.Prelude.{
  ltb, leb, ◌==◌, if◌then◌else◌, is_some, Bool-cases, Option-cases, if_both, ltb→lt, ltb→le, lt→ltb,
  ==→eq, ==→ne, eq→==, ne→==,
}
use alephos.Prelude.{
  length, get_elem?, get_or, set, take, drop, replicate, length-append, length-set,
  length-replicate, length-take, length-drop, take-append-drop, get_or-set_self, get_or-set_ne,
  get_or-replicate, set-get_or, set-set, take-ge, drop-ge, take-of_append, drop-of_append,
}
use alephos.Prelude.{u8, u16, u32, u64, sub32, sub64}
use mathlib.Core.Option
use alephos.Tty.CharRing.{CharRing, read_raw}
use alephos.Graphics.Display.{Framebuffer, clear_screen}
use alephos.Bits.{complement}
use alephos.Bits.Flags.{has_flag}

abbrev pub tty_max_devices : ℕ
tty_max_devices = 8

abbrev pub tty_name_max : ℕ
tty_name_max = 32

abbrev pub flag_echo : ℕ
flag_echo = 1

abbrev pub flag_canonical : ℕ
flag_canonical = 2

pub data State : Type 0 where
  unused active stopped : State

pub is_active : State → Bool
is_active unused = false
is_active active = true
is_active stopped = false

-- The effect of `tty_scroll` on the framebuffer, `rows` being `height * pitch / 4` words: the
-- text moves up and black rows follow.
unfoldable pub scroll_rows : ℕ → Framebuffer → Framebuffer
scroll_rows lines fb =
    let scroll_size = u32 (lines * 16) in
    let stride = fb.pitch / 4 in
    if ltb scroll_size fb.height
    then record fb {
      pixels =
          drop (scroll_size * stride) (take (fb.height * stride) fb.pixels)
          ++ (replicate (scroll_size * stride) 0 ++ drop (fb.height * stride) fb.pixels);
    }
    else fb

-- The bytes of a C string: those before its first NUL.
unfoldable pub until_nul : List ℕ → List ℕ
until_nul [] = []
until_nul (c ∷ cs) = if c == 0 then [] else c ∷ until_nul cs

pub last_or : List ℕ → ℕ → ℕ
last_or [] d = d
last_or (c ∷ cs) d = last_or cs c

-- `strncpy(dest, src, n)` into a cleared array: the bytes, then zeros up to `n`.
unfoldable pub copy_name : ℕ → List ℕ → List ℕ
copy_name zero src = []
copy_name (suc n) [] = 0 ∷ copy_name n []
copy_name (suc n) (c ∷ src) = c ∷ copy_name n src

-- The framebuffer, if there is one, beside the rest of the machine.
pub record Machine (W : Type 0) : Type 0 where
  pub framebuffer : Option Framebuffer
  pub world : W

-- `tty_device_t`; a callback that is not set is `none`.
pub record Tty (W : Type 0) : Type 0 where
  pub name : List ℕ
  pub state : State
  pub flags : ℕ
  pub input : CharRing
  pub output : CharRing
  pub rows : ℕ
  pub cols : ℕ
  pub cursor_x : ℕ
  pub cursor_y : ℕ
  pub write_char : Option (ℕ → Machine W → Machine W)
  pub read_char : Option (Machine W → ℕ × Machine W)

-- An operation returns the terminal and the machine.
abbrev pub Both : Type 0 → Type 0
Both W = Tty W × Machine W

module _ {W : Type 0} where
  pub on_framebuffer : (Framebuffer → Framebuffer) → Machine W → Machine W
  on_framebuffer f h = record h { framebuffer = Option.map f h.framebuffer }

  -- `lines` is an `int`; the callers pass 1.
  pub scroll : ℕ → Machine W → Machine W
  unfolding on_framebuffer scroll_rows
  scroll lines h = if lines == 0 then h else on_framebuffer (scroll_rows lines) h

  pub clear : Tty W → Machine W → Both W
  unfolding on_framebuffer clear_screen
  clear t h = (record t { cursor_x = 0; cursor_y = 0 }, on_framebuffer clear_screen h)

  pub set_cursor : Tty W → ℕ → ℕ → Tty W
  set_cursor t x y = record t {
    cursor_x = if ltb x t.cols then x else t.cursor_x;
    cursor_y = if ltb y t.rows then y else t.cursor_y;
  }

  -- `tty_process_escape_sequence`, on the bytes before the terminating NUL
  pub process_escape : Tty W → Machine W → List ℕ → Both W
  unfolding clear set_cursor until_nul last_or
  process_escape t h seq =
      let s = until_nul seq in
      let cmd = last_or s 0 in
      if not (get_or s 0 0 == b'[')
      then (t, h)
      else (if cmd == b'H'
          then (set_cursor t 0 0, h)
          else (if cmd == b'J'
              then (if get_or s 1 0 == b'2' then clear t h else (t, h))
              else (if cmd == b'A'
                  then ((if ltb 0 t.cursor_y then record t { cursor_y = t.cursor_y - 1 } else t), h)
                  else (if cmd == b'B'
                      then (
                        (if ltb t.cursor_y (sub32 t.rows 1)
                            then record t { cursor_y = t.cursor_y + 1 }
                            else t),
                        h,
                      )
                      else (if cmd == b'C'
                          then (
                            (if ltb t.cursor_x (sub32 t.cols 1)
                                then record t { cursor_x = t.cursor_x + 1 }
                                else t),
                            h,
                          )
                          else (if cmd == b'D'
                              then (
                                (if ltb 0 t.cursor_x
                                    then record t { cursor_x = t.cursor_x - 1 }
                                    else t),
                                h,
                              )
                              else (t, h)))))))

  -- `cursor_y++`, and a scroll if that leaves the screen
  pub next_line : Tty W → Machine W → Both W
  unfolding scroll
  next_line t h =
      let y = u32 (t.cursor_y + 1) in
      if leb t.rows y
      then (record t { cursor_y = sub32 t.rows 1 }, scroll 1 h)
      else (record t { cursor_y = y }, h)

  emit : Option (ℕ → Machine W → Machine W) → ℕ → ℕ → Machine W → ℕ × Machine W
  emit none c written h = (written, h)
  emit (some f) c written h = (written + 1, f c h)

  -- the branch for a regular character, with the count of characters written
  pub put_regular : ℕ → Tty W → Machine W → ℕ → ℕ × Both W
  unfolding next_line emit
  put_regular c t h written =
      let x = u32 (t.cursor_x + 1) in
      let (n, h') = emit t.write_char c written h in
      if leb t.cols x
      then (n, next_line (record t { cursor_x = 0 }) h')
      else (n, (record t { cursor_x = x }, h'))

  -- the characters with no escape
  pub put_char : ℕ → Tty W → Machine W → ℕ → ℕ × Both W
  unfolding put_regular next_line
  put_char c t h written =
      if c == b'\n'
      then (written, next_line (record t { cursor_x = 0 }) h)
      else (if c == b'\r'
          then (written, (record t { cursor_x = 0 }, h))
          else (if c == 8
              then (
                written,
                (
                  record t { cursor_x = if ltb 0 t.cursor_x then t.cursor_x - 1 else t.cursor_x },
                  h,
                ),
              )
              else (if c == b'\t'
                  then (
                    written,
                    (record t { cursor_x = bit_and (u32 (t.cursor_x + 8)) (complement 32 7) }, h),
                  )
                  else put_regular c t h written)))

-- The bytes before the next escape character, and the rest from that on.
pub split_escape : List ℕ → List ℕ × List ℕ
split_escape [] = ([], [])
split_escape (c ∷ cs) =
    let (seq, rest) = split_escape cs in if c == 27 then ([], c ∷ cs) else (c ∷ seq, rest)

pub data Written (W : Type 0) : Type 0 where
  -- the return value
  done : ℕ → Tty W → Machine W → Written W
  -- an escape sequence is copied past the end of `char seq[32]`
  overrun : Written W
  -- -1
  refused : Written W
  out_of_fuel : Written W

module _ {W : Type 0} where
  -- The loop of `tty_write`: the characters left, and those written so far.
  pub write_loop : ℕ → List ℕ → Tty W → Machine W → ℕ → Written W
  unfolding put_char process_escape split_escape
  write_loop zero cs t h written = out_of_fuel
  write_loop (suc fuel) [] t h written = done written t h
  write_loop (suc fuel) (c ∷ cs) t h written =
      let (seq, rest) = split_escape cs in
      elim (c == 27) [
        | true ↦ elim (length seq == 0) [
          | true ↦ write_loop fuel cs t h written
          | false ↦ elim (leb 32 (length seq)) [
            | true ↦ overrun
            | false ↦ let (t', h') = process_escape t h seq in write_loop fuel rest t' h' written
          ]
        ]
        | false ↦ let (n, (t', h')) = put_char c t h written in write_loop fuel cs t' h' n
      ]

  -- Each round takes at least one character, so one round more than there are characters is
  -- enough fuel.
  pub write : Option (Tty W) → Option (List ℕ) → Machine W → Written W
  unfolding write_loop is_active
  write none buf h = refused
  write (some t) none h = refused
  write (some t) (some cs) h =
      if is_active t.state then write_loop (suc (length cs)) cs t h 0 else refused

  next_char : Option (Machine W → ℕ × Machine W) → Machine W → ℕ × Machine W
  next_char none h = (0, h)
  next_char (some f) h = f h

  echo : Tty W → ℕ → Machine W → Machine W
  unfolding has_flag
  echo t c h =
      if has_flag t.flags flag_echo then elim t.write_char [ none ↦ h | some f ↦ f c h ] else h

  -- The canonical loop of `tty_read`, with room for `n` more characters.
  pub read_line : ℕ → Tty W → Machine W → List ℕ × Machine W
  unfolding next_char echo
  read_line zero t h = ([], h)
  read_line (suc n) t h =
      let (c, h') = next_char t.read_char h in
      let h'' = echo t c h' in
      let (cs, end) = read_line n t h'' in
      if c == 0 then ([], h') else (if c == b'\n' then (c ∷ [], h'') else (c ∷ cs, end))

pub data ReadResult (W : Type 0) : Type 0 where
  got : List ℕ → Tty W → Machine W → ReadResult W
  refused : ReadResult W

-- `buf` says that the caller's buffer is not NULL.
pub read : {W : Type 0} → Option (Tty W) → (buf : Bool) → ℕ → Machine W → ReadResult W
unfolding read_line read_raw is_active has_flag
read none buf n h = refused
read (some t) buf n h =
    if not buf || not (is_active t.state)
    then refused
    else (if has_flag t.flags flag_canonical
        then (let (cs, h') = read_line n t h in got cs t h')
        else (let (cs, r) = read_raw n t.input in got cs (record t { input = r }) h))
