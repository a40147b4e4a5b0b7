-- ===== src/Console/Graphics/OnFramebuffer.antt =====
-- The console on the frame buffer of the boot loader: the functions of drivers/BootloaderFB as the
-- graphics driver.
use wolf_os.Base.{
  ℕ, ◌*◌, ◌/◌, ◌%◌, ◌^◌, ◌<◌, ◌≡◌, ◌∙◌, inl, inr, ◌&&◌, not, ◌==◌, if◌then◌else◌, Bool-cases, arith,
}
use wolf_os.Base.Machine.{Memory}
use wolf_os.Drivers.Framebuffer.{Framebuffer, outside, kgetpixel, ksetpixel, kvshift}
use wolf_os.Drivers.Framebuffer.Pixels.{IsMode, kgetpixel-ksetpixel}
use wolf_os.Console.Graphics.{GraphicsDriver, Pen, gr_drawchar}
use wolf_os.Console.Graphics.Glyph.{Draws, shown_pixel, gr_drawchar-shown}

abbrev pub framebuffer_driver : (capabilities : ℕ) → Framebuffer → GraphicsDriver Memory
framebuffer_driver capabilities fb = record {
  ksetpixel = λ x y argb m. ksetpixel fb m x y argb;
  kvshift = λ rows m. kvshift capabilities fb m rows;
}

module _ (capabilities : ℕ) (fb : Framebuffer) (mode : IsMode fb) where
  pub framebuffer_driver-sets :
      (x y argb x' y' : ℕ) (m : Memory)
      → argb < 2 ^ 32
      → kgetpixel fb (ksetpixel fb m x y argb) x' y' ≡ (
          if not (outside fb x' y') && ((x' == x) && (y' == y)) then argb else kgetpixel fb m x' y')
  framebuffer_driver-sets x y argb x' y' m small =
      (kgetpixel-ksetpixel fb mode m x y argb x' y' small).0
      ∙ elim (Bool-cases ((x' == x) && (y' == y))) [
        | inl e ↦
            let ex : x' ≡ x = ground arith in
            let ey : y' ≡ y = ground arith in rw (ex, ey) (ground arith)
        | inr e ↦ rw e (ground arith)
      ]

  abbrev pub framebuffer_draws : Draws (framebuffer_driver capabilities fb)
  framebuffer_draws = record {
    kgetpixel = λ x y m. kgetpixel fb m x y;
    is_inside = λ x y. not (outside fb x y);
    sets = framebuffer_driver-sets;
  }

  -- In a mode of four bytes for a pixel, `gr_drawchar` draws the glyph of the character into its cell,
  -- in the color of the draw mode on black and as far as the cell is on the screen, and changes no
  -- other pixel.
  pub kgetpixel-gr_drawchar :
      (font : (index : ℕ) → ℕ) (chr : ℕ) (p : Pen Memory) (x y : ℕ)
      → p.cursor_x * 8 < 2 ^ 16
      → p.cursor_y * 16 < 2 ^ 16
      → kgetpixel fb (gr_drawchar (framebuffer_driver capabilities fb) font chr p).canvas x y ≡ (
          if not (outside fb x y) && ((x / 8 == p.cursor_x) && (y / 16 == p.cursor_y))
          then shown_pixel font p.draw_mode chr (x % 8) (y % 16)
          else kgetpixel fb p.canvas x y)
  kgetpixel-gr_drawchar font chr p x y wide high =
      gr_drawchar-shown (framebuffer_driver capabilities fb) framebuffer_draws font chr p x y wide
        high
