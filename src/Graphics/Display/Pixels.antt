-- ===== src/Graphics/Display/Pixels.antt =====
-- Which pixels the loops of kernel/src/graphics/display.c paint.
use alephos.Prelude.{ℕ, zero, suc, ◌+◌, ◌*◌, ◌/◌, ◌^◌, ◌≤◌, ◌<◌}
use alephos.Prelude.{◌≡◌, refl, sym, ap, ap₂, ◌∙◌, inl, inr, false, ◌&&◌}
use alephos.Prelude.{arith}
use alephos.Prelude.{ltb, leb, ◌==◌, if◌then◌else◌, Bool-cases, ltb→lt, ltb→le}
use alephos.Prelude.{length, get_or, length-set, get_or-set_self, get_or-set_ne}
use alephos.Prelude.{u32}
use native.Mathlib.Nat.{mul-le-mul_right}
use alephos.Graphics.Display.{Framebuffer, draw_pixel, draw_row, draw_rows, draw_rect, clear_screen}

-- Rows do not overlap, all of them lie in the memory, and a position fits 32 bits.
pub record IsValid (fb : Framebuffer) : Type 0 where
  pub wide : fb.width ≤ fb.pitch / 4
  pub memory : fb.height * (fb.pitch / 4) ≤ length fb.pixels
  pub small : (fb.width < 2 ^ 32) × (fb.height < 2 ^ 32)

pub pixel_at : Framebuffer → ℕ → ℕ → ℕ
pixel_at fb x y = get_or fb.pixels (y * (fb.pitch / 4) + x) 0

-- Positions in a row of `s` words have words of their own.
row-le : (s x y u v : ℕ) → x < s → y * s + x ≡ v * s + u → v ≤ y
row-le s x y u v hx e = elim (Bool-cases (ltb y v)) [
  | inl above ↦
      let more : suc y * s ≤ v * s = mul-le-mul_right s (ltb→lt y v above) in absurd (omega arith)
  | inr below ↦ ltb→le y v below
]

index_injective : (s x y u v : ℕ) → x < s → u < s → y * s + x ≡ v * s + u → (x ≡ u) × (y ≡ v)
index_injective s x y u v hx hu e =
    let same : y ≡ v = omega (arith, row-le s x y u v hx e, row-le s u v x y hu (sym e)) in
    (omega (arith, ap (λ (t : ℕ). t * s) same), same)

index-lt : (s h x y : ℕ) → x < s → y < h → y * s + x < h * s
index-lt s h x y p q = grind arith

IsValid-draw_pixel :
    (fb : Framebuffer) (x y color : ℕ) → IsValid fb → IsValid (draw_pixel fb x y color)
unfolding draw_pixel
IsValid-draw_pixel fb x y color v =
    ground (arith, length-set fb.pixels (y * (fb.pitch / 4) + x) color)

-- `draw_pixel` writes inside the framebuffer's memory.
draw_pixel_in_bounds :
    (fb : Framebuffer) (x y : ℕ)
    → IsValid fb
    → x < fb.width
    → y < fb.height
    → y * (fb.pitch / 4) + x < length fb.pixels
draw_pixel_in_bounds fb x y v hx hy =
    omega (arith, index-lt (fb.pitch / 4) fb.height x y (omega (arith, v.wide)) hy, v.memory)

size-draw_pixel :
    (fb : Framebuffer) (x y color : ℕ)
    → ((draw_pixel fb x y color).width ≡ fb.width) × ((draw_pixel fb x y color).height ≡ fb.height)
unfolding draw_pixel
size-draw_pixel fb x y color = ground arith

other_pixel :
    (fb : Framebuffer) (x y u v : ℕ)
    → IsValid fb
    → x < fb.width
    → u < fb.width
    → y * (fb.pitch / 4) + x ≡ v * (fb.pitch / 4) + u
    → (u == x && v == y) ≡ false
    → ⊥
other_pixel fb x y u v ok hx hu e other =
    let same =
      index_injective (fb.pitch / 4) x y u v (omega (arith, ok.wide)) (omega (arith, ok.wide)) e in
    ground (arith, same)

pixel-draw_pixel :
    (fb : Framebuffer) (x y color u v : ℕ)
    → IsValid fb
    → u < fb.width
    → v < fb.height
    → pixel_at (draw_pixel fb x y color) u v ≡ (if u == x && v == y then color else pixel_at fb u v)
unfolding draw_pixel pixel_at
pixel-draw_pixel fb x y color u v ok hu hv = elim (Bool-cases (ltb x fb.width && ltb y fb.height)) [
  | inl inside ↦ rw inside (elim (Bool-cases (u == x && v == y)) [
    | inl same ↦
        let at : v * (fb.pitch / 4) + u ≡ y * (fb.pitch / 4) + x =
          ap₂ (λ (a b : ℕ). a * (fb.pitch / 4) + b) {x = v} {y = y} (ground arith) (ground arith) in
        rw (same, at)
          (get_or-set_self fb.pixels (y * (fb.pitch / 4) + x) color 0
            (draw_pixel_in_bounds fb x y ok (ground arith) (ground arith)))
    | inr other ↦ rw other (
        get_or-set_ne fb.pixels (y * (fb.pitch / 4) + x) (v * (fb.pitch / 4) + u) color 0
          λ e. other_pixel fb x y u v ok (ground arith) hu e other)
  ])
  | inr outside ↦ rw outside (ground arith)
]

draw_row-IsValid :
    (x y color n j : ℕ) (fb : Framebuffer)
    → IsValid fb
    → IsValid (draw_row x y color n j fb)
      × ((draw_row x y color n j fb).width ≡ fb.width)
      × ((draw_row x y color n j fb).height ≡ fb.height)
unfolding draw_row
draw_row-IsValid x y color zero j fb ok = (ok, refl, refl)
draw_row-IsValid x y color (suc n) j fb ok =
    let mid : Framebuffer = draw_pixel fb (u32 (x + j)) y color in
    let (valid, w, h) =
      draw_row-IsValid x y color n (j + 1) mid (IsValid-draw_pixel fb (u32 (x + j)) y color ok) in
    let (w', h') = size-draw_pixel fb (u32 (x + j)) y color in (valid, w ∙ w', h ∙ h')

pixel-draw_row :
    (x y color n j : ℕ) (fb : Framebuffer) (u v : ℕ)
    → IsValid fb
    → x + j + n ≤ 2 ^ 32
    → u < fb.width
    → v < fb.height
    → pixel_at (draw_row x y color n j fb) u v
      ≡ (if v == y && (leb (x + j) u && ltb u (x + j + n)) then color else pixel_at fb u v)
unfolding draw_row
pixel-draw_row x y color zero j fb u v ok h hu hv = ground arith
pixel-draw_row x y color (suc n) j fb u v ok h hu hv =
    let at : u32 (x + j) ≡ x + j = omega arith in
    let (w, t) = size-draw_pixel fb (x + j) y color in
    rw at (
      pixel-draw_row x y color n (j + 1) (draw_pixel fb (x + j) y color) u v
        (IsValid-draw_pixel fb (x + j) y color ok) (omega arith) (omega arith) (omega arith)
      ∙ ground (arith, pixel-draw_pixel fb (x + j) y color u v ok hu hv))

pixel-draw_rows :
    (x y width color n i : ℕ) (fb : Framebuffer) (u v : ℕ)
    → IsValid fb
    → x + width ≤ 2 ^ 32
    → y + i + n ≤ 2 ^ 32
    → u < fb.width
    → v < fb.height
    → pixel_at (draw_rows x y width color n i fb) u v ≡ (
        if (leb (y + i) v && ltb v (y + i + n)) && (leb x u && ltb u (x + width))
        then color
        else pixel_at fb u v)
unfolding draw_rows
pixel-draw_rows x y width color zero i fb u v ok hw h hu hv = ground arith
pixel-draw_rows x y width color (suc n) i fb u v ok hw h hu hv =
    let at : u32 (y + i) ≡ y + i = omega arith in
    let mid : Framebuffer = draw_row x (y + i) color width 0 fb in
    let (valid, w, t) = draw_row-IsValid x (y + i) color width 0 fb ok in
    let row = pixel-draw_row x (y + i) color width 0 fb u v ok (omega arith) hu hv in
    let rest =
      pixel-draw_rows x y width color n (i + 1) mid u v valid hw (omega arith) (omega arith)
        (omega arith) in
    rw at (rest ∙ later row)
  where
    later :
        {m : ℕ}
        → m ≡ (
            if v == (y + i) && (leb (x + 0) u && ltb u (x + 0 + width))
            then color
            else pixel_at fb u v)
        → (if (leb (y + (i + 1)) v && ltb v (y + (i + 1) + n)) && (leb x u && ltb u (x + width))
            then color
            else m)
          ≡ (if (leb (y + i) v && ltb v (y + i + suc n)) && (leb x u && ltb u (x + width))
              then color
              else pixel_at fb u v)
    later row = ground arith

-- On a valid framebuffer draw_rect paints the part of the rectangle that lies on the screen,
-- and no other pixel of the screen, where the rectangle's far corner fits 32 bits.
pub pixel-draw_rect :
    (fb : Framebuffer) (x y width height color u v : ℕ)
    → IsValid fb
    → x + width ≤ 2 ^ 32
    → y + height ≤ 2 ^ 32
    → u < fb.width
    → v < fb.height
    → pixel_at (draw_rect fb x y width height color) u v ≡ (
        if (leb y v && ltb v (y + height)) && (leb x u && ltb u (x + width))
        then color
        else pixel_at fb u v)
unfolding draw_rect
pixel-draw_rect fb x y width height color u v ok hw hh hu hv =
    pixel-draw_rows x y width color height 0 fb u v ok hw (omega arith) hu hv ∙ ground arith

-- After clear_screen of a valid framebuffer every pixel of the screen is black.
pub pixel-clear_screen :
    (fb : Framebuffer) (u v : ℕ)
    → IsValid fb
    → u < fb.width
    → v < fb.height
    → pixel_at (clear_screen fb) u v ≡ 0
unfolding clear_screen
pixel-clear_screen fb u v ok hu hv =
    pixel-draw_rows 0 0 fb.width 0 fb.height 0 fb u v ok (omega arith) (omega arith) hu hv
    ∙ ground arith
