-- ===== src/Console/Screen.antt =====
-- console/console.c, the screen in text mode. It is in the memory from 0xb8000 on, two bytes for each
-- character. `memcpy` and `memset` go by the capabilities of the processor.
pub mod Cursor
pub mod Tests
use wolf_os.Base.{
  zero, suc, Option, none, some, ◌>>=◌, ℕ, ◌+◌, ◌-◌, ◌*◌, List, [], ◌∷◌, Bool, ◌||◌, ltb, leb, ◌==◌,
  if◌then◌else◌,
}
use wolf_os.Base.Words.{u8}
use wolf_os.Base.Machine.{Memory, poke}
use wolf_os.Util.Strings.{memset, cpu_has_feature, feature_sse}
use wolf_os.Util.Strings.Blocks.{memcpy}

abbrev pub bios_buf : ℕ
bios_buf = 0xb8000

abbrev pub capacity_x : ℕ
capacity_x = 80

abbrev pub capacity_y : ℕ
capacity_y = 25

abbrev pub vga_color_switcher_base : ℕ
vga_color_switcher_base = 240

-- The memory and the globals that the functions change.
pub record Screen : Type 0 where
  pub memory : Memory
  pub cursor_x : ℕ
  pub cursor_y : ℕ
  pub draw_mode : ℕ

unfoldable pub gr_drawchar : (chr : ℕ) → Screen → Screen
gr_drawchar chr s =
    let at = bios_buf + s.cursor_y * 160 + s.cursor_x * 2 in
    record s { memory = poke (poke s.memory at chr) (at + 1) s.draw_mode }

module _ (capabilities : ℕ) where
  -- With SSE `memcpy` prints a character before the first block; the screen is aligned to blocks, so no
  -- byte is copied before it. The number of bytes is an `int` that the call converts; it is not negative
  -- for up to 25 rows.
  unfoldable pub gr_shiftup :
      (print_w : Screen → Option Screen) → (rows : ℕ) → Screen → Option Screen
  gr_shiftup print_w rows s =
      let rest : ℕ = 80 * (50 - rows * 2) in
      let printed = if cpu_has_feature capabilities feature_sse then print_w s else some s in
      printed >>= λ s'.
      let m = memcpy capabilities (λ c m. m) s'.memory bios_buf (bios_buf + 160 * rows) rest in
      memset capabilities m (bios_buf + rest) 0 (rows * 160) >>= λ m'.
      some (record s' { memory = m' })

  abbrev pub at_left : Screen → Screen
  at_left s = record s { cursor_x = 0 }

  -- The move to the next line; `'\n'` is 10.
  unfoldable pub new_line : (print_w : Screen → Option Screen) → Screen → Option Screen
  new_line print_w s =
      if leb (capacity_y - 1) s.cursor_y
      then (gr_shiftup print_w 1 s >>= λ s'. some (at_left s'))
      else some (record s { cursor_y = s.cursor_y + 1; cursor_x = 0 })

  -- The depth bounds how often `memcpy` prints a character again.
  unfoldable pub gr_renderchar : (depth chr : ℕ) → Screen → Option Screen
  gr_renderchar zero chr s = none
  gr_renderchar (suc n) chr s =
      let on_next_line = new_line (gr_renderchar n b'w') s in
      if (chr == 10) || leb capacity_x s.cursor_x
      then on_next_line
      else if leb vga_color_switcher_base chr
      then some (record s { draw_mode = u8 (chr - vga_color_switcher_base) })
      else some (record (gr_drawchar chr s) { cursor_x = s.cursor_x + 1 })

  -- What `putchar` shows of a text, character by character.
  unfoldable pub render : (depth : ℕ) → List ℕ → Screen → Option Screen
  render depth [] s = some s
  render depth (c ∷ cs) s = gr_renderchar depth c s >>= render depth cs
