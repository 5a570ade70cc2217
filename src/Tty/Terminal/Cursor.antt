-- ===== src/Tty/Terminal/Cursor.antt =====
-- Where the cursor of a terminal can be: kernel/src/core/drivers/tty/tty.c.
use alephos.Prelude.{ℕ, suc, ◌^◌, ◌<◌}
use alephos.Prelude.{◌≡◌, inl, inr, Bool, true, false, not, ◌||◌}
use alephos.Prelude.{some, List, arith}
use alephos.Prelude.{◌==◌, Bool-cases}
use alephos.Prelude.{length}
use alephos.Tty.Terminal.{
  Tty, Machine, is_active, process_escape, put_char, put_regular, next_line, write,
}
use alephos.Tty.Terminal.Output.{Ends, AllTrue, write_loop-Ends}

abbrev pub fits : Bool → ℕ → Bool
fits tabs c = tabs || not (c == b'\t')

module _ {W : Type 0} where
  -- The cursor is on a row of the screen, and, unless tabs are written, on a column of it.
  pub record OnScreen (tabs : Bool) (t : Tty W) : Type 0 where
    pub size : (t.rows < 2 ^ 32) × (t.cols < 2 ^ 32)
    pub row : t.cursor_y < t.rows
    pub column : (tabs ≡ false) → t.cursor_x < t.cols

  next_line-OnScreen :
      (tabs : Bool) (t : Tty W) (h : Machine W) → OnScreen tabs t → OnScreen tabs (next_line t h).0
  unfolding next_line
  next_line-OnScreen tabs t h s = record {
    size = ground (arith, s.size);
    row = ground (arith, s.size, s.row);
    column = λ e. ground (arith, s.column e);
  }

  put_char-OnScreen :
      (tabs : Bool) (c : ℕ) (t : Tty W) (h : Machine W) (n : ℕ)
      → fits tabs c ≡ true
      → OnScreen tabs t
      → OnScreen tabs (put_char c t h n).1.0
  unfolding put_char put_regular
  put_char-OnScreen tabs c t h n q s = record {
    size = ground (arith, s.size);
    row = ground (arith, s.size, s.row);
    column = λ e. ground (arith, s.column e, s.size);
  }

  process_escape-OnScreen :
      (tabs : Bool) (seq : List ℕ) (t : Tty W) (h : Machine W)
      → OnScreen tabs t
      → OnScreen tabs (process_escape t h seq).0
  unfolding process_escape
  process_escape-OnScreen tabs seq t h s = record {
    size = ground (arith, s.size);
    row = ground (arith, s.size, s.row);
    column = λ e. ground (arith, s.column e, s.size);
  }

  -- From a cursor on the screen tty_write always ends, and unless it writes past the end of
  -- its own array it leaves the cursor on a row of the screen, and on a column of it too if
  -- no tab is written, through every character and escape sequence.
  pub write-OnScreen :
      (tabs : Bool) (cs : List ℕ) (t : Tty W) (h : Machine W)
      → AllTrue (fits tabs) cs
      → OnScreen tabs t
      → Ends (OnScreen tabs) (write (some t) (some cs) h)
  unfolding write
  write-OnScreen tabs cs t h a s = elim (Bool-cases (is_active t.state)) [
    | inl on ↦
        rw (on, Ends)
          (write_loop-Ends (OnScreen tabs) (fits tabs) (put_char-OnScreen tabs)
            (process_escape-OnScreen tabs) (suc (length cs)) cs t h 0 (omega arith) a s)
    | inr off ↦ rw (off, Ends) tt
  ]
