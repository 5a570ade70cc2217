-- ===== src/Tty/Devices.antt =====
-- The table of terminals: tty_create, tty_destroy and tty_ioctl of
-- kernel/src/core/drivers/tty/tty.c. A device is named by its index in the table.
pub mod Slots
mod Tests
use alephos.Prelude.{
  ℕ, zero, suc, ◌+◌, ◌-◌, ◌*◌, ◌/◌, ◌%◌, ◌^◌, ◌≤◌, ◌<◌, min, max, bit_and, bit_or, bit_xor,
}
use alephos.Prelude.{
  ◌≡◌, refl, sym, ap, ap₂, ◌∙◌, subst, ◌≢◌, ◌↔◌, ◌⊎◌, inl, inr, Bool, true, false, not, ◌&&◌, ◌||◌,
}
use alephos.Prelude.{Option, none, some, List, [], ◌∷◌, ◌++◌, append-nil, append_assoc, arith}
use alephos.Prelude.{
  ltb, leb, ◌==◌, if◌then◌else◌, is_some, Bool-cases, Option-cases, if_both, ltb→lt, ltb→le, lt→ltb,
  ==→eq, ==→ne, eq→==, ne→==,
}
use alephos.Prelude.{
  length, get_elem?, get_or, set, take, drop, replicate, length-append, length-set,
  length-replicate, length-take, length-drop, take-append-drop, get_or-set_self, get_or-set_ne,
  get_or-replicate, set-get_or, set-set, take-ge, drop-ge, take-of_append, drop-of_append,
}
use alephos.Prelude.{u8, u16, u32, u64, sub32, sub64}
use alephos.Graphics.Display.{Framebuffer}
use alephos.Tty.CharRing.{CharRing, tty_buffer_size}
use alephos.Tty.Terminal.{State, Tty, tty_max_devices, tty_name_max, copy_name, until_nul}

-- `tty_devices` and `tty_count`
pub record Devices (W : Type 0) : Type 0 where
  pub devices : List (Tty W)
  pub count : ℕ

abbrev pub tiocgwinsz : ℕ
tiocgwinsz = 21523

abbrev pub tiocswinsz : ℕ
tiocswinsz = 21524

-- `struct winsize`
pub record Winsize : Type 0 where
  pub ws_row : ℕ
  pub ws_col : ℕ
  pub ws_xpixel : ℕ
  pub ws_ypixel : ℕ

pub empty_ring : CharRing
empty_ring = record { buffer = replicate tty_buffer_size 0; head = 0; tail = 0; count = 0 }

module _ {W : Type 0} where
  pub cleared : Tty W
  unfolding empty_ring
  cleared = record {
    name = replicate tty_name_max 0;
    state = State.unused;
    flags = 0;
    input = empty_ring;
    output = empty_ring;
    rows = 0;
    cols = 0;
    cursor_x = 0;
    cursor_y = 0;
    write_char = none;
    read_char = none;
  }

  pub create : Devices W → List ℕ → Option ℕ × Devices W
  unfolding cleared copy_name until_nul
  create d name = if leb tty_max_devices d.count then (none, d) else (
    some d.count,
    record d {
      devices = set d.devices d.count (record cleared {
        name = copy_name (tty_name_max - 1) (until_nul name) ++ (0 ∷ []);
        state = State.active;
      });
      count = d.count + 1;
    },
  )

  pub forget : Tty W → Tty W
  forget t = record t {
    input = record t.input { buffer = replicate tty_buffer_size 0 };
    output = record t.output { buffer = replicate tty_buffer_size 0 };
    state = State.unused;
  }

  pub destroy : Devices W → Option ℕ → Devices W
  unfolding forget
  destroy d none = d
  destroy d (some i) = record d { devices = set d.devices i (forget (get_or d.devices i cleared)) }

  window_size : Tty W → Framebuffer → Winsize
  window_size t fb = record {
    ws_row = u16 t.rows;
    ws_col = u16 t.cols;
    ws_xpixel = u16 fb.width;
    ws_ypixel = u16 fb.height;
  }

  -- The terminal and the caller's structure after the call; `none` for -1.
  pub ioctl : Tty W → Framebuffer → ℕ → Option Winsize → Option (Tty W × Winsize)
  unfolding window_size
  ioctl t fb cmd none = none
  ioctl t fb cmd (some ws) =
      if cmd == tiocgwinsz
      then some (t, window_size t fb)
      else (if cmd == tiocswinsz
          then some (record t { rows = ws.ws_row; cols = ws.ws_col }, ws)
          else none)
