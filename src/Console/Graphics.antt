-- ===== src/Console/Graphics.antt =====
-- console/console.c, what draws through a graphics driver. The functions of the driver are the
-- parameter GraphicsDriver, and the bytes of console/font.h the parameter `font`.
pub mod Redraw
pub mod Glyph
pub mod OnFramebuffer
pub mod Overrun
pub mod Tests
use wolf_os.Base.{
  ℕ, zero, suc, ◌+◌, ◌-◌, ◌*◌, bit_and, Bool, ◌||◌, not, List, [], ◌∷◌, Option, none, some, leb,
  get_elem?, ◌==◌, if◌then◌else◌,
}
use wolf_os.Base.Words.{u8, u16, ◌<<◌}

abbrev pub font_size_x : ℕ
font_size_x = 8

abbrev pub font_size_y : ℕ
font_size_y = 16

abbrev pub vgamap : List ℕ
vgamap =
    0x000000 ∷ 0x0000aa ∷ 0x00aa00 ∷ 0x00aaaa ∷ 0xaa0000 ∷ 0xaa00aa ∷ 0xaa5500 ∷ 0xaaaaaa ∷ 0x555555
    ∷ 0x5555ff ∷ 0x55ff55 ∷ 0x55ffff ∷ 0xff5555 ∷ 0xff55ff ∷ 0xffff55 ∷ 0xffffff ∷ []

abbrev pub color_or_black : Option ℕ → ℕ
color_or_black none = 0
color_or_black (some c) = c

-- `vgamap[draw_mode]`. The modes are the characters from 240 on less 240, so none is behind the table.
unfoldable pub color_of : (draw_mode : ℕ) → ℕ
color_of mode = color_or_black (get_elem? vgamap mode)

-- `ksetpixel` and `kvshift`; a fault of the second is none.
pub record GraphicsDriver (Canvas : Type 0) : Type 0 where
  pub ksetpixel : (x y argb : ℕ) → Canvas → Canvas
  pub kvshift : (rows : ℕ) → Canvas → Option Canvas

-- The globals in graphics mode, and what is drawn on.
pub record Pen (Canvas : Type 0) : Type 0 where
  pub canvas : Canvas
  pub cursor_x : ℕ
  pub cursor_y : ℕ
  pub capacity_x : ℕ
  pub capacity_y : ℕ
  pub draw_mode : ℕ

module _ {Canvas : Type 0} (driver : GraphicsDriver Canvas) (font : (index : ℕ) → ℕ) where
  open driver use {ksetpixel, kvshift}

  -- The color of a column in a row of a glyph.
  unfoldable pub column_color : (draw_mode rowbits col : ℕ) → ℕ
  column_color mode rowbits col =
      if not (bit_and rowbits (1 << (7 - col)) == 0) then color_of mode else 0

  unfoldable pub columns_loop : (draw_mode rowbits top_x y col left : ℕ) → Canvas → Canvas
  columns_loop mode rowbits top_x y col zero m = m
  columns_loop mode rowbits top_x y col (suc k) m =
      columns_loop mode rowbits top_x y (col + 1) k
        (ksetpixel (top_x + col) y (column_color mode rowbits col) m)

  unfoldable pub rows_loop : (draw_mode glyph top_x top_y row left : ℕ) → Canvas → Canvas
  rows_loop mode glyph top_x top_y row zero m = m
  rows_loop mode glyph top_x top_y row (suc k) m =
      rows_loop mode glyph top_x top_y (row + 1) k
        (columns_loop mode (font (glyph + row)) top_x (top_y + row) 0 font_size_x m)

  unfoldable pub gr_drawchar : (chr : ℕ) → Pen Canvas → Pen Canvas
  gr_drawchar chr p = record p {
    canvas =
        rows_loop p.draw_mode (4 + chr * font_size_y) (u16 (p.cursor_x * font_size_x))
          (u16 (p.cursor_y * font_size_y)) 0 font_size_y p.canvas;
  }

  abbrev pub with_canvas : Pen Canvas → Option Canvas → Option (Pen Canvas)
  with_canvas p none = none
  with_canvas p (some m) = some (record p { canvas = m })

  unfoldable pub gr_shiftup : (rows : ℕ) → Pen Canvas → Option (Pen Canvas)
  gr_shiftup rows p = with_canvas p (kvshift (rows * font_size_y) p.canvas)

  abbrev pub at_left : Option (Pen Canvas) → Option (Pen Canvas)
  at_left none = none
  at_left (some p) = some (record p { cursor_x = 0 })

  unfoldable pub gr_renderchar : (chr : ℕ) → Pen Canvas → Option (Pen Canvas)
  gr_renderchar chr p =
      if (chr == 10) || leb p.capacity_x p.cursor_x
      then (if leb (p.capacity_y - 1) p.cursor_y
          then at_left (gr_shiftup 1 p)
          else some (record p { cursor_y = u16 (p.cursor_y + 1); cursor_x = 0 }))
      else if leb 240 chr
      then some (record p { draw_mode = u8 (chr - 240) })
      else some (record (gr_drawchar chr p) { cursor_x = u16 (p.cursor_x + 1) })
