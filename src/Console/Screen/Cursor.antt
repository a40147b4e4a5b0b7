-- ===== src/Console/Screen/Cursor.antt =====
-- What a character does to the screen, and the bounds of the cursor.
use wolf_os.Base.{
  ℕ, zero, suc, ◌+◌, ◌-◌, ◌*◌, ◌≤◌, ◌<◌, ◌≡◌, ◌∙◌, refl, ap, inl, inr, List, [], ◌∷◌, Bool, true,
  false, not, ◌||◌, ◌&&◌, ltb, leb, ◌==◌, if◌then◌else◌, Bool-cases, arith, Option, some, ◌>>=◌,
}
use wolf_os.Base.Words.{u8}
use wolf_os.Base.Machine.{Memory}
use wolf_os.Util.Strings.{memcpy_fast, memset_fast, memset, cpu_has_feature, feature_sse}
use wolf_os.Util.Strings.Blocks.{memcpy}
use wolf_os.Util.Strings.Fill.{memset_fast-filled}
use wolf_os.Util.Strings.Copy.{memcpy_fast-copied}
use wolf_os.Console.Screen.{
  bios_buf, capacity_x, capacity_y, Screen, gr_shiftup, gr_drawchar, new_line, gr_renderchar,
  render,
}

abbrev pub InBounds : Screen → Type 0
InBounds s = (s.cursor_x ≤ capacity_x) × (s.cursor_y < capacity_y)

-- A byte of the screen one row further down, and 0 in the last row.
abbrev pub scrolled : Memory → (b : ℕ) → ℕ
scrolled m b =
    if leb bios_buf b && ltb b (bios_buf + 3840)
    then m (b + 160)
    else if leb (bios_buf + 3840) b && ltb b (bios_buf + 4000)
    then 0
    else m b

-- A line break, and what is taken for one since it comes behind the last column.
abbrev pub breaks : (chr : ℕ) → Screen → Bool
breaks chr s = (chr == 10) || leb 80 s.cursor_x

-- What a character does to the screen: a break moves the cursor to the left of the next line, and the
-- rows up if there is none; a character from 240 on sets the color; any other is put at the cursor, with
-- the color behind it.
abbrev pub Shown : (chr : ℕ) → (before after : Screen) → Type 0
Shown chr s t =
    (t.cursor_x ≡ (if breaks chr s then 0 else if leb 240 chr then s.cursor_x else s.cursor_x + 1))
    × (t.cursor_y ≡ (if breaks chr s && ltb s.cursor_y 24 then s.cursor_y + 1 else s.cursor_y))
    × (t.draw_mode ≡ (if not (breaks chr s) && leb 240 chr then u8 (chr - 240) else s.draw_mode))
    × ((b : ℕ)
        → t.memory b ≡ (
            if breaks chr s
            then (if ltb s.cursor_y 24 then s.memory b else scrolled s.memory b)
            else if leb 240 chr
            then s.memory b
            else if b == 0xb8000 + s.cursor_y * 160 + s.cursor_x * 2 + 1
            then s.draw_mode
            else if b == 0xb8000 + s.cursor_y * 160 + s.cursor_x * 2
            then chr
            else s.memory b))

shifted :
    (m : Memory) (b : ℕ)
    → memset_fast (memcpy_fast m bios_buf (bios_buf + 160) 3840) (bios_buf + 3840) 0 160 b
      ≡ scrolled m b
shifted m b =
    rw
      (
        memset_fast-filled (memcpy_fast m bios_buf (bios_buf + 160) 3840) (bios_buf + 3840) 0 160,
        memcpy_fast-copied m bios_buf (bios_buf + 160) 3840 b (inl (omega arith)),
      )
      (elim (Bool-cases (leb bios_buf b)) [
        | inl at ↦
            let place : bios_buf + 160 + (b - bios_buf) ≡ b + 160 = ground arith in
            rw place (ground arith)
        | inr before ↦ ground arith
      ])

module _ (capabilities : ℕ) (plain : cpu_has_feature capabilities feature_sse ≡ false) where
  abbrev moved_up : Screen → Screen
  moved_up s = record s {
    memory =
        memset_fast (memcpy_fast s.memory bios_buf (bios_buf + 160) 3840) (bios_buf + 3840) 0 160;
  }

  gr_shiftup-plain :
      (print_w : Screen → Option Screen) (s : Screen)
      → gr_shiftup capabilities print_w 1 s ≡ some (moved_up s)
  unfolding gr_shiftup memcpy memset
  gr_shiftup-plain print_w s = rw plain refl

  pub gr_renderchar-Shown :
      (depth c : ℕ) (s : Screen)
      → 0 < depth
      → (t : Screen) × (gr_renderchar capabilities depth c s ≡ some t) × Shown c s t
  unfolding gr_renderchar gr_drawchar new_line
  gr_renderchar-Shown zero c s deep = absurd (omega arith)
  gr_renderchar-Shown (suc n) c s deep = elim (Bool-cases ((c == 10) || leb 80 s.cursor_x)) [
    | inl e ↦ elim (Bool-cases (leb 24 s.cursor_y)) [
      | inl l ↦
          let last : ltb s.cursor_y 24 ≡ false = ground arith in
          rw (e, l, last, gr_shiftup-plain (gr_renderchar capabilities n b'w') s)
            (_, refl, (refl, refl, refl, λ b. shifted s.memory b))
      | inr l ↦
          let above : ltb s.cursor_y 24 ≡ true = ground arith in
          rw (e, l, above) (_, refl, (refl, refl, refl, λ b. refl))
    ]
    | inr e ↦ elim (Bool-cases (leb 240 c)) [
      | inl k ↦ rw (e, k) (_, refl, (refl, refl, refl, λ b. refl))
      | inr k ↦ rw (e, k) (_, refl, (refl, refl, refl, λ b. refl))
    ]
  ]

  Shown-InBounds :
      (s t : Screen) (c b : ℕ)
      → InBounds s
      → ltb b bios_buf || leb (bios_buf + 4000) b ≡ true
      → Shown c s t
      → InBounds t × (t.memory b ≡ s.memory b)
  Shown-InBounds s t c b (wide, high) out (ex, ey, ed, em) =
      ((ground (arith, ex), ground (arith, ey)), em b ∙ ground arith)

  -- On a processor without SSE and in text mode, whatever text is printed, the printing returns, the
  -- cursor stays on the screen or one column behind it, and no byte outside the 4000 bytes of the screen
  -- changes.
  pub render-InBounds :
      (depth : ℕ) (cs : List ℕ) (s : Screen) (b : ℕ)
      → 0 < depth
      → InBounds s
      → ltb b bios_buf || leb (bios_buf + 4000) b ≡ true
      → (t : Screen) × (render capabilities depth cs s ≡ some t)
        × InBounds t
        × (t.memory b ≡ s.memory b)
  unfolding render
  render-InBounds depth [] s b deep h out = (s, refl, h, refl)
  render-InBounds depth (c ∷ cs) s b deep h out =
      let (t, run, shown) = gr_renderchar-Shown depth c s deep in
      let (inside, same) = Shown-InBounds s t c b h out shown in
      let (u, run', inside', same') = render-InBounds depth cs t b deep inside out in
      (u, ap (λ o. o >>= render capabilities depth cs) run ∙ run', inside', same' ∙ same)
