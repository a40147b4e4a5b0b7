-- ===== src/Console/Graphics/Overrun.antt =====
-- `redraw` and lines that are wider than the screen.
use wolf_os.Base.{
  ℕ, zero, suc, ◌+◌, ◌-◌, ◌^◌, ◌≤◌, ◌<◌, ◌≡◌, ◌≢◌, refl, true, false, List, ◌∷◌, none, leb, ◌==◌,
  arith,
}
use wolf_os.Base.Words.{u16}
use wolf_os.Console.Buffer.{ConsoleEntry}
use wolf_os.Console.Graphics.{GraphicsDriver, Pen}
use wolf_os.Console.Graphics.Redraw.{Line, put_in_line, chars_loop, entries_loop, redraw}

-- No line break is among the n characters below an index.
abbrev pub Unbroken : (data_at : ℕ → ℕ) (below n : ℕ) → Type 0
Unbroken data_at below n = (i : ℕ) → i < below → below ≤ i + n → data_at i ≢ 10

module _ {Canvas : Type 0} (driver : GraphicsDriver Canvas) (font : (index : ℕ) → ℕ) where
  chars_loop-overruns :
      (k left : ℕ) (data_at : ℕ → ℕ) (crtline : Line) (p : Pen Canvas)
      → p.cursor_x + k ≡ p.capacity_x
      → p.capacity_x < 2 ^ 16
      → k < left
      → Unbroken data_at left (k + 1)
      → chars_loop driver font data_at left crtline p ≡ none
  unfolding chars_loop
  chars_loop-overruns k zero data_at crtline p at small more unbroken = absurd (omega arith)
  chars_loop-overruns zero (suc chrid) data_at crtline p at small more unbroken =
      let full : leb p.capacity_x p.cursor_x ≡ true = ground arith in rw full refl
  chars_loop-overruns (suc k) (suc chrid) data_at crtline p at small more unbroken =
      let room : leb p.capacity_x p.cursor_x ≡ false = ground arith in
      let no_break = unbroken chrid (omega arith) (omega arith) in
      let char : (data_at chrid == 10) ≡ false = ground (arith, no_break) in
      rw (room, char)
        (chars_loop-overruns k chrid data_at
          (put_in_line driver font crtline p.cursor_x (data_at chrid))
          (record p { cursor_x = u16 (p.cursor_x + 1) }) (omega arith) small (omega arith)
          (λ i lt ge. unbroken i (omega arith) (omega arith)))

  -- If the last entry ends with more characters than a line has columns and no line break among them,
  -- `redraw` writes behind the end of its array.
  pub redraw-overruns :
      (garbage : Line) (e : ConsoleEntry) (older : List ConsoleEntry) (p : Pen Canvas)
      → p.capacity_x < 2 ^ 16
      → 0 < p.capacity_y
      → p.capacity_y < 2 ^ 16
      → p.capacity_x < e.charcount
      → Unbroken e.data_at e.charcount (p.capacity_x + 1)
      → redraw driver font garbage (e ∷ older) p ≡ none
  unfolding redraw entries_loop
  redraw-overruns garbage e older p small some_lines few long unbroken =
      let last = u16 (p.capacity_y + (2 ^ 16 - 1)) in
      let inside : (last == 0xffff) ≡ false = ground arith in
      let fault =
        chars_loop-overruns p.capacity_x e.charcount e.data_at garbage
          (record p { cursor_y = last; cursor_x = 0 }) (omega arith) small long unbroken in
      rw (inside, fault) refl
