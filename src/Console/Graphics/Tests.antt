-- ===== src/Console/Graphics/Tests.antt =====
-- A glyph on a frame buffer, and a text without line breaks on one that is 20 columns wide.
use wolf_os.Base.{ℕ, ◌/◌, ◌%◌, ◌≡◌, ◌&&◌, not, [], ◌∷◌, none, ◌==◌, if◌then◌else◌, arith}
use wolf_os.Base.Machine.{Memory}
use wolf_os.Drivers.Framebuffer.{Framebuffer, outside, kgetpixel}
use wolf_os.Drivers.Framebuffer.Pixels.{IsMode}
use wolf_os.Console.Buffer.{ConsoleEntry}
use wolf_os.Console.Graphics.{Pen, gr_drawchar}
use wolf_os.Console.Graphics.Redraw.{redraw}
use wolf_os.Console.Graphics.Overrun.{redraw-overruns}
use wolf_os.Console.Graphics.Glyph.{shown_pixel}
use wolf_os.Console.Graphics.OnFramebuffer.{framebuffer_driver, kgetpixel-gr_drawchar}

abbrev mode : Framebuffer
mode = record { addr = 0x1000; width = 160; height = 32; pitch = 640; bpp = 32 }

mode-IsMode : IsMode mode
mode-IsMode = omega arith

-- Every other column of a glyph is set.
abbrev stripes : (index : ℕ) → ℕ
stripes i = 0x55

abbrev pen : Pen Memory
pen = record {
  canvas = λ a. a % 256;
  cursor_x = 3;
  cursor_y = 1;
  capacity_x = 20;
  capacity_y = 2;
  draw_mode = 7;
}

kgetpixel-gr_drawchar_example :
    kgetpixel mode (gr_drawchar (framebuffer_driver 0 mode) stripes 65 pen).canvas 25 20 ≡ (
      if not (outside mode 25 20) && ((25 / 8 == pen.cursor_x) && (20 / 16 == pen.cursor_y))
      then shown_pixel stripes pen.draw_mode 65 (25 % 8) (20 % 16)
      else kgetpixel mode pen.canvas 25 20)
kgetpixel-gr_drawchar_example =
    kgetpixel-gr_drawchar 0 mode mode-IsMode stripes 65 pen 25 20 (omega arith) (omega arith)

abbrev long_entry : ConsoleEntry
long_entry = record { charcount = 30; data_at = λ i. 65 }

redraw-overruns_example :
    redraw (framebuffer_driver 0 mode) stripes (λ i. 0) (long_entry ∷ []) pen ≡ none
redraw-overruns_example =
    redraw-overruns (framebuffer_driver 0 mode) stripes (λ i. 0) long_entry [] pen (omega arith)
      (omega arith) (omega arith) (omega arith) (λ i lt ge. omega arith)
