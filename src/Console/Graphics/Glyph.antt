-- ===== src/Console/Graphics/Glyph.antt =====
-- What `gr_drawchar` draws: the glyph in its cell, and nothing else.
use wolf_os.Base.{
  ℕ, zero, suc, ◌+◌, ◌-◌, ◌*◌, ◌/◌, ◌%◌, ◌^◌, ◌<◌, ◌≡◌, refl, ◌∙◌, inl, inr, Bool, true, false,
  ◌&&◌, List, [], ◌∷◌, ltb, leb, ◌==◌, if◌then◌else◌, Bool-cases, arith, get_elem?,
}
use native.Mathlib.Nat.{one-le-pow}
use wolf_os.Base.Bits.{bit_and_single}
use wolf_os.Base.Words.{u16, ◌<<◌}
use wolf_os.Console.Graphics.{
  GraphicsDriver, Pen, color_of, color_or_black, vgamap, column_color, columns_loop, rows_loop,
  gr_drawchar, font_size_x, font_size_y,
}

-- What is asked of a driver: a pixel that is set is read back if it is on the screen, and no other
-- pixel changes.
pub record Draws {Canvas : Type 0} (driver : GraphicsDriver Canvas) : Type 0 where
  pub kgetpixel : (x y : ℕ) → Canvas → ℕ
  pub is_inside : (x y : ℕ) → Bool
  pub sets :
      (x y argb x' y' : ℕ) (m : Canvas)
      → argb < 2 ^ 32
      → kgetpixel x' y' (driver.ksetpixel x y argb m)
        ≡ (if is_inside x' y' && ((x' == x) && (y' == y)) then argb else kgetpixel x' y' m)

-- The pixel of a glyph, by the digits of the font's bytes.
abbrev pub shown_pixel : (font : (index : ℕ) → ℕ) (draw_mode chr col row : ℕ) → ℕ
shown_pixel font mode chr col row =
    if font (4 + chr * 16 + row) / 2 ^ (7 - col) % 2 == 1 then color_of mode else 0

AllWords : List ℕ → Type 0
AllWords [] = Unit
AllWords (c ∷ cs) = (c < 2 ^ 32) × AllWords cs

color_or_black-lt : (cs : List ℕ) (i : ℕ) → AllWords cs → color_or_black (get_elem? cs i) < 2 ^ 32
unfolding AllWords
color_or_black-lt [] i h = omega arith
color_or_black-lt (c ∷ cs) zero h = h.0
color_or_black-lt (c ∷ cs) (suc i) h = color_or_black-lt cs i h.1

vgamap-AllWords : AllWords vgamap
unfolding AllWords
vgamap-AllWords = ground arith

color_of-lt : (mode : ℕ) → color_of mode < 2 ^ 32
unfolding color_of
color_of-lt mode = color_or_black-lt vgamap mode vgamap-AllWords

module _ {Canvas : Type 0} (driver : GraphicsDriver Canvas) (draws : Draws driver)
    (font : (index : ℕ) → ℕ) where
  open draws use {kgetpixel, is_inside, sets}

  column_color-lt : (mode rowbits col : ℕ) → column_color driver font mode rowbits col < 2 ^ 32
  unfolding column_color
  column_color-lt mode rowbits col = ground (arith, color_of-lt mode)

  columns_loop-drawn :
      (k mode rowbits top_x y col x' y' : ℕ) (m : Canvas)
      → kgetpixel x' y' (columns_loop driver font mode rowbits top_x y col k m) ≡ (
          if is_inside x' y' && ((y' == y) && (leb (top_x + col) x' && ltb x' (top_x + col + k)))
          then column_color driver font mode rowbits (x' - top_x)
          else kgetpixel x' y' m)
  unfolding columns_loop
  columns_loop-drawn zero mode rowbits top_x y col x' y' m = ground arith
  columns_loop-drawn (suc k) mode rowbits top_x y col x' y' m =
      let argb = column_color driver font mode rowbits col in
      columns_loop-drawn k mode rowbits top_x y (col + 1) x' y'
        (driver.ksetpixel (top_x + col) y argb m)
      ∙ rw (sets (top_x + col) y argb x' y' m (column_color-lt mode rowbits col))
          (elim (Bool-cases (x' == top_x + col)) [
            | inl e ↦ let here : x' - top_x ≡ col = ground arith in rw here (ground arith)
            | inr e ↦ ground arith
          ])

  -- The row of the glyph that a row of the screen shows, and the color of the column in it.
  abbrev pub glyph_color : (mode glyph top_x top_y x y : ℕ) → ℕ
  glyph_color mode glyph top_x top_y x y =
      column_color driver font mode (font (glyph + (y - top_y))) (x - top_x)

  rows_loop-drawn :
      (k mode glyph top_x top_y row x y : ℕ) (m : Canvas)
      → kgetpixel x y (rows_loop driver font mode glyph top_x top_y row k m) ≡ (
          if is_inside x y
            && ((leb (top_y + row) y && ltb y (top_y + row + k))
                && (leb top_x x && ltb x (top_x + font_size_x)))
          then glyph_color mode glyph top_x top_y x y
          else kgetpixel x y m)
  unfolding rows_loop
  rows_loop-drawn zero mode glyph top_x top_y row x y m = ground arith
  rows_loop-drawn (suc k) mode glyph top_x top_y row x y m =
      let bits = font (glyph + row) in
      let m' = columns_loop driver font mode bits top_x (top_y + row) 0 font_size_x m in
      rows_loop-drawn k mode glyph top_x top_y (row + 1) x y m'
      ∙ rw (columns_loop-drawn font_size_x mode bits top_x (top_y + row) 0 x y m)
          (elim (Bool-cases (y == top_y + row)) [
            | inl e ↦ let here : y - top_y ≡ row = ground arith in rw here (ground arith)
            | inr e ↦ ground arith
          ])

  -- The color by the digits of the byte: the highest is on the left.
  column_color-digit :
      (mode rowbits col : ℕ)
      → column_color driver font mode rowbits col
        ≡ (if rowbits / 2 ^ (7 - col) % 2 == 1 then color_of mode else 0)
  unfolding column_color
  column_color-digit mode rowbits col =
      let single = bit_and_single (7 - col) rowbits in
      let pos = one-le-pow (7 - col) 2 (omega arith) in
      let digit : (1 << (7 - col)) ≡ 2 ^ (7 - col) = omega arith in
      rw (digit, single)
        (elim (Bool-cases (rowbits / 2 ^ (7 - col) % 2 == 1)) [
          | inl e ↦
              let one : rowbits / 2 ^ (7 - col) % 2 ≡ 1 = ground arith in
              rw one (
                let some_bit : (1 * 2 ^ (7 - col) == 0) ≡ false = ground (arith, pos) in
                rw some_bit refl)
          | inr e ↦
              let none_set : rowbits / 2 ^ (7 - col) % 2 ≡ 0 = ground arith in
              rw none_set
                (let no_bit : (0 * 2 ^ (7 - col) == 0) ≡ true = ground arith in rw no_bit refl)
        ])

  pub gr_drawchar-shown :
      (chr : ℕ) (p : Pen Canvas) (x y : ℕ)
      → p.cursor_x * 8 < 2 ^ 16
      → p.cursor_y * 16 < 2 ^ 16
      → kgetpixel x y (gr_drawchar driver font chr p).canvas ≡ (
          if is_inside x y && ((x / 8 == p.cursor_x) && (y / 16 == p.cursor_y))
          then shown_pixel font p.draw_mode chr (x % 8) (y % 16)
          else kgetpixel x y p.canvas)
  unfolding gr_drawchar
  gr_drawchar-shown chr p x y wide high =
      let left : u16 (p.cursor_x * font_size_x) ≡ p.cursor_x * 8 = omega arith in
      let top : u16 (p.cursor_y * font_size_y) ≡ p.cursor_y * 16 = omega arith in
      rw (left, top)
        (rows_loop-drawn font_size_y p.draw_mode (4 + chr * font_size_y) (p.cursor_x * 8)
            (p.cursor_y * 16) 0 x y p.canvas
          ∙ elim (Bool-cases ((x / 8 == p.cursor_x) && (y / 16 == p.cursor_y))) [
            | inl e ↦
                let col : x - p.cursor_x * 8 ≡ x % 8 = ground arith in
                let row : y - p.cursor_y * 16 ≡ y % 16 = ground arith in
                rw
                  (
                    col,
                    row,
                    column_color-digit p.draw_mode (font (4 + chr * font_size_y + y % 16)) (x % 8),
                    e,
                  )
                  (ground arith)
            | inr e ↦ ground arith
          ])
