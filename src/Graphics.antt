-- ===== src/Graphics.antt =====
-- kernel/src/graphics: drawing on the framebuffer.
pub mod Display
