-- ===== src/Graphics/Display/Tests.antt =====
-- A screen of two by two pixels with a word of padding in each row.
use alephos.Prelude.{◌+◌}
use alephos.Prelude.{◌≡◌, refl, ◌&&◌}
use alephos.Prelude.{[], ◌∷◌, arith}
use alephos.Prelude.{ltb, leb, if◌then◌else◌}
use alephos.Graphics.Display.{Framebuffer, draw_rect, clear_screen}
use alephos.Graphics.Display.Pixels.{IsValid, pixel_at, pixel-draw_rect, pixel-clear_screen}

abbrev screen : Framebuffer
screen = record { width = 2; height = 2; pitch = 12; pixels = 1 ∷ 2 ∷ 3 ∷ 4 ∷ 5 ∷ 6 ∷ [] }

screen-IsValid : IsValid screen
screen-IsValid = record {
  wide = omega arith;
  memory = omega arith;
  small = (omega arith, omega arith);
}

rect_runs : (draw_rect screen 1 0 5 1 9).pixels ≡ 1 ∷ 9 ∷ 3 ∷ 4 ∷ 5 ∷ 6 ∷ []
unfolding draw_rect
rect_runs = refl

pixel-draw_rect_example :
    pixel_at (draw_rect screen 1 0 5 1 9) 1 0
    ≡ (if (leb 0 0 && ltb 0 (0 + 1)) && (leb 1 1 && ltb 1 (1 + 5)) then 9 else pixel_at screen 1 0)
pixel-draw_rect_example =
    pixel-draw_rect screen 1 0 5 1 9 1 0 screen-IsValid (omega arith) (omega arith) (omega arith)
      (omega arith)

clear_screen_test : pixel_at (clear_screen screen) 1 1 ≡ 0
clear_screen_test = pixel-clear_screen screen 1 1 screen-IsValid (omega arith) (omega arith)
