-- ===== src/Tty/Terminal/Tests.antt =====
-- The terminals of kernel/src/core/drivers/tty/tty.c on concrete text.
use alephos.Prelude.{ℕ}
use alephos.Prelude.{◌≡◌, refl, false, ◌&&◌}
use alephos.Prelude.{none, some, List, [], ◌∷◌, arith}
use alephos.Tty.CharRing.{CharRing}
use alephos.Tty.Terminal.{Tty, Machine, State, is_active, done, write}
use alephos.Tty.Terminal.Output.{Ends}
use alephos.Tty.Terminal.Cursor.{OnScreen, write-OnScreen}
use alephos.Tty.Terminal.Escape.{overruns, long_escape, write-overruns}

abbrev ring : CharRing
ring = record { buffer = []; head = 0; tail = 0; count = 0 }

-- The world is the list of what the callback was given, the last first.
abbrev log : ℕ → Machine (List ℕ) → Machine (List ℕ)
log c h = record h { world = c ∷ h.world }

abbrev small : Tty (List ℕ)
small = record {
  name = [];
  state = State.active;
  flags = 3;
  input = ring;
  output = ring;
  rows = 2;
  cols = 3;
  cursor_x = 0;
  cursor_y = 1;
  write_char = some log;
  read_char = none;
}

abbrev silent : Machine (List ℕ)
silent = record { framebuffer = none; world = [] }

small-OnScreen : OnScreen false small
small-OnScreen = record {
  size = (omega arith, omega arith);
  row = omega arith;
  column = λ e. omega arith;
}

abbrev text : List ℕ
text = b'a' ∷ b'b' ∷ 27 ∷ b'[' ∷ b'A' ∷ 27 ∷ b'[' ∷ b'H' ∷ []

write_runs :
    write (some small) (some text) silent
    ≡ done 2
        (record small { cursor_x = 0; cursor_y = 0 })
        (record silent { world = b'b' ∷ b'a' ∷ [] })
unfolding write
write_runs = refl

write-OnScreen_example : Ends (OnScreen false) (write (some small) (some text) silent)
write-OnScreen_example =
    write-OnScreen false text small silent
      (refl, (refl, (refl, (refl, (refl, (refl, (refl, (refl, tt)))))))) small-OnScreen

write-overruns_example :
    overruns (write (some small) (some text) silent) ≡ (is_active small.state && long_escape text)
write-overruns_example = write-overruns text small silent
