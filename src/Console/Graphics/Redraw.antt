-- ===== src/Console/Graphics/Redraw.antt =====
-- console/console.c, `flushline`, `redraw` and `kswitch_graphics_driver`. An access outside of the array
-- `crtline` is a fault, none.
use wolf_os.Base.{
  ℕ, zero, suc, ◌+◌, ◌-◌, ◌/◌, ◌^◌, ◌||◌, List, [], ◌∷◌, Option, none, some, ◌>>=◌, leb, ◌==◌,
  if◌then◌else◌,
}
use wolf_os.Base.Words.{u8, u16}
use wolf_os.Console.Buffer.{ConsoleEntry}
use wolf_os.Console.Graphics.{GraphicsDriver, Pen, gr_drawchar, font_size_x, font_size_y}

-- `crtline`
abbrev pub Line : Type 0
Line = (index : ℕ) → ℕ

module _ {Canvas : Type 0} (driver : GraphicsDriver Canvas) (font : (index : ℕ) → ℕ) where
  -- Each round of the loop brings `maxhere - cursor_x` down by one, by the one or by the other, and
  -- reads at it.
  unfoldable pub flush_loop : Line → (left : ℕ) → Pen Canvas → Option (Pen Canvas)
  flush_loop crtline zero p = some p
  flush_loop crtline (suc k) p =
      let c = crtline (suc k) in
      let same = flush_loop crtline k p in
      let recolored = flush_loop crtline k (record p { draw_mode = u8 (c - 240) }) in
      let drawn =
        flush_loop crtline k
          (record (gr_drawchar driver font c p) { cursor_x = u16 (p.cursor_x + 1) }) in
      if leb p.capacity_x (suc k)
      then none
      else if c == 10
      then same
      else if leb 240 c
      then recolored
      else drawn

  -- The result of `flushline`, and the line above.
  abbrev pub line_up : Pen Canvas → ℕ × Pen Canvas
  line_up p =
      if p.cursor_y == 0 then (1, p) else (0, record p { cursor_y = p.cursor_y - 1; cursor_x = 0 })

  unfoldable pub flushline : Line → Pen Canvas → Option (ℕ × Pen Canvas)
  flushline crtline p =
      flush_loop crtline p.cursor_x (record p { cursor_x = 0 }) >>= (λ q. some (line_up q))

  abbrev pub put_in_line : Line → (at chr : ℕ) → Line
  put_in_line crtline at chr i = if i == at then chr else crtline i

  -- What follows a flush: `break` if it was of the first line of the screen.
  abbrev pub after_flush :
      (go_on : Pen Canvas → Option (Line × Pen Canvas))
      → Line
      → ℕ × Pen Canvas
      → Option (Line × Pen Canvas)
  after_flush go_on crtline (result, p) =
      let rest = go_on (record p { cursor_x = u16 (p.cursor_x + 1) }) in
      if result == 0 then rest else some (crtline, p)

  -- The characters of an entry from the last to the first.
  unfoldable pub chars_loop :
      (data_at : ℕ → ℕ) (left : ℕ) → Line → Pen Canvas → Option (Line × Pen Canvas)
  chars_loop data_at zero crtline p = some (crtline, p)
  chars_loop data_at (suc chrid) crtline p =
      let chr = data_at chrid in
      let line = put_in_line crtline p.cursor_x chr in
      let flushed = flushline line p >>= after_flush (chars_loop data_at chrid line) line in
      let rest = chars_loop data_at chrid line (record p { cursor_x = u16 (p.cursor_x + 1) }) in
      if leb p.capacity_x p.cursor_x
      then none
      else if (chr == 10) || leb p.capacity_x p.cursor_x
      then flushed
      else rest

  unfoldable pub entries_loop :
      (from_last : List ConsoleEntry) → Line → Pen Canvas → Option (Line × Pen Canvas)
  entries_loop [] crtline p = some (crtline, p)
  entries_loop (e ∷ older) crtline p =
      let rest =
        chars_loop e.data_at e.charcount crtline p
        >>= (λ out. entries_loop older (out.0) (out.1)) in
      if p.cursor_y == 0xffff then some (crtline, p) else rest

  abbrev pub last_line : Line × Pen Canvas → Option (Pen Canvas)
  last_line (crtline, p) =
      flushline crtline (record p { cursor_x = u16 (p.cursor_x + (2 ^ 16 - 1)) }) >>= (λ out.
        some (record (out.1) { cursor_x = 0; cursor_y = u16 (p.capacity_y + (2 ^ 16 - 1)) }))

  -- In graphics mode with an active console; `garbage` is what the array holds before it is written.
  unfoldable pub redraw :
      (garbage : Line) (from_last : List ConsoleEntry) → Pen Canvas → Option (Pen Canvas)
  redraw garbage from_last p =
      entries_loop from_last garbage
        (record p { cursor_y = u16 (p.capacity_y + (2 ^ 16 - 1)); cursor_x = 0 })
      >>= last_line

  -- The addresses of the four functions of the driver, 0 where it has none, and the mode that
  -- `getfbmode` gives. The result is the byte that the code returns.
  unfoldable pub kswitch_graphics_driver :
      (getfbmode kgetpixel ksetpixel kvshift : ℕ)
      → (fbmode : ℕ × ℕ) → (garbage : Line) (from_last : List ConsoleEntry) → Pen Canvas
      → Option (ℕ × Pen Canvas)
  kswitch_graphics_driver symbol get_tmp set_tmp shift_tmp (width, height) garbage from_last p =
      let switched =
        redraw garbage from_last
          (record p { capacity_x = width / font_size_x; capacity_y = height / font_size_y })
        >>= (λ q. some (1, q)) in
      if (symbol == 0) || (get_tmp == 0) || (set_tmp == 0) || (shift_tmp == 0)
      then some (0, p)
      else switched
