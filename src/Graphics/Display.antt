-- ===== src/Graphics/Display.antt =====
-- kernel/src/graphics/display.c: pixels, rectangles and the cleared screen. The framebuffer's
-- memory is a list of 32-bit words; `pitch`, the bytes of a row, is a multiple of four.
pub mod Pixels
mod Tests
use alephos.Prelude.{
  ℕ, zero, suc, ◌+◌, ◌-◌, ◌*◌, ◌/◌, ◌%◌, ◌^◌, ◌≤◌, ◌<◌, min, max, bit_and, bit_or, bit_xor,
}
use alephos.Prelude.{
  ◌≡◌, refl, sym, ap, ap₂, ◌∙◌, subst, ◌≢◌, ◌↔◌, ◌⊎◌, inl, inr, Bool, true, false, not, ◌&&◌, ◌||◌,
}
use alephos.Prelude.{Option, none, some, List, [], ◌∷◌, ◌++◌, append-nil, append_assoc, arith}
use alephos.Prelude.{
  ltb, leb, ◌==◌, if◌then◌else◌, is_some, Bool-cases, Option-cases, if_both, ltb→lt, ltb→le, lt→ltb,
  ==→eq, ==→ne, eq→==, ne→==,
}
use alephos.Prelude.{
  length, get_elem?, get_or, set, take, drop, replicate, length-append, length-set,
  length-replicate, length-take, length-drop, take-append-drop, get_or-set_self, get_or-set_ne,
  get_or-replicate, set-get_or, set-set, take-ge, drop-ge, take-of_append, drop-of_append,
}
use alephos.Prelude.{u8, u16, u32, u64, sub32, sub64}

-- The fields of `struct limine_framebuffer` that the kernel uses.
pub record Framebuffer : Type 0 where
  pub width : ℕ
  pub height : ℕ
  pub pitch : ℕ
  pub pixels : List ℕ

-- A write outside the memory is dropped; `Pixels.draw_pixel_in_bounds` rules it out.
pub draw_pixel : Framebuffer → ℕ → ℕ → ℕ → Framebuffer
draw_pixel fb x y color =
    if ltb x fb.width && ltb y fb.height
    then record fb { pixels = set fb.pixels (y * (fb.pitch / 4) + x) color }
    else fb

-- The inner loop of `draw_rect` at column `j`, with `n` rounds left.
pub draw_row : ℕ → ℕ → ℕ → ℕ → ℕ → Framebuffer → Framebuffer
unfolding draw_pixel
draw_row x y color zero j fb = fb
draw_row x y color (suc n) j fb = draw_row x y color n (j + 1) (draw_pixel fb (u32 (x + j)) y color)

-- The outer loop at row `i`, with `n` rounds left.
pub draw_rows : ℕ → ℕ → ℕ → ℕ → ℕ → ℕ → Framebuffer → Framebuffer
unfolding draw_row
draw_rows x y width color zero i fb = fb
draw_rows x y width color (suc n) i fb =
    draw_rows x y width color n (i + 1) (draw_row x (u32 (y + i)) color width 0 fb)

pub draw_rect : Framebuffer → ℕ → ℕ → ℕ → ℕ → ℕ → Framebuffer
unfolding draw_rows
draw_rect fb x y width height color = draw_rows x y width color height 0 fb

-- Its two loops are those of a rectangle from the origin, over the whole screen.
unfoldable pub clear_screen : Framebuffer → Framebuffer
unfolding draw_rows
clear_screen fb = draw_rows 0 0 fb.width 0 fb.height 0 fb
