-- ===== src/Drivers/Framebuffer/Shift.antt =====
-- `kvshift` moves the picture up.
use native.Mathlib.Nat.{mul-le-mul_right}
use wolf_os.Base.{
  ℕ, ◌+◌, ◌-◌, ◌*◌, ◌≤◌, ◌<◌, ◌≡◌, ap, ◌∙◌, true, false, ◌||◌, some, ltb, leb, ◌==◌, if◌then◌else◌,
  Bool-cases, inl, inr, arith,
}
use wolf_os.Base.Words.{add32, mul32}
use wolf_os.Base.Machine.{Memory, read32}
use wolf_os.Util.Strings.{cpu_has_feature, feature_sse}
use wolf_os.Util.Strings.Fill.{filled, memset-filled}
use wolf_os.Util.Strings.Copy.{copied, memmove_fast-copied}
use wolf_os.Util.Strings.Blocks.{memmove}
use wolf_os.Util.Strings.Move.{memmove_sse-copied}
use wolf_os.Drivers.Framebuffer.{Framebuffer, outside, kgetpixel, kvshift}
use wolf_os.Drivers.Framebuffer.Pixels.{IsMode, row-le, row-below, kgetpixel-inside}

-- Both routines of the kernel move 31 bytes or more to lower addresses as they should.
memmove-lower :
    (capabilities : ℕ) (m : Memory) (d s n : ℕ)
    → d < s
    → 31 ≤ n
    → memmove capabilities m d s n ≡ copied m d s n
unfolding memmove
memmove-lower capabilities m d s n h enough =
    let lower : leb d s ≡ true = ground arith in
    elim (Bool-cases (cpu_has_feature capabilities feature_sse)) [
      | inl e ↦ rw e (memmove_sse-copied m d s n enough)
      | inr e ↦ rw e (λ i b.
          (memmove_fast-copied m d s n b
              ∙ ap (λ t. if t then copied m d s n b else copied m (d + 1) (s + 1) n b) lower)
            i)
    ]

read32-ext :
    (m m' : Memory) (a b : ℕ)
    → m a ≡ m' b
    → m (a + 1) ≡ m' (b + 1)
    → m (a + 2) ≡ m' (b + 2)
    → m (a + 3) ≡ m' (b + 3)
    → read32 m a ≡ read32 m' b
read32-ext m m' a b e0 e1 e2 e3 =
    let last : a + 2 + 1 ≡ a + 3 = omega arith in
    let last' : b + 2 + 1 ≡ b + 3 = omega arith in rw (last, last') (omega (arith, e0, e1, e2, e3))

-- What is left of the buffer after a shift by n of its n + k bytes.
shifted_buffer : Memory → (base n k : ℕ) → Memory
shifted_buffer m base n k = filled (copied m base (base + n) k) (base + k) 0 n

shifted-below :
    (m : Memory) (base n k o : ℕ) → o < k → shifted_buffer m base n k (base + o) ≡ m (base + n + o)
unfolding shifted_buffer
shifted-below m base n k o h =
    let place : base + n + (base + o - base) ≡ base + n + o = omega arith in rw place (ground arith)

shifted-above :
    (m : Memory) (base n k o : ℕ) → k ≤ o → o < k + n → shifted_buffer m base n k (base + o) ≡ 0
unfolding shifted_buffer
shifted-above m base n k o h l = ground arith

shifted-below_at :
    (m : Memory) (base n k o j : ℕ)
    → o + j < k
    → shifted_buffer m base n k (base + o + j) ≡ m (base + n + o + j)
shifted-below_at m base n k o j h =
    let at : base + o + j ≡ base + (o + j) = omega arith in
    let from : base + n + o + j ≡ base + n + (o + j) = omega arith in
    rw (at, from) (shifted-below m base n k (o + j) h)

shifted-above_at :
    (m : Memory) (base n k o j : ℕ)
    → k ≤ o
    → o + j < k + n
    → shifted_buffer m base n k (base + o + j) ≡ 0
shifted-above_at m base n k o j h l =
    let at : base + o + j ≡ base + (o + j) = omega arith in
    rw at (shifted-above m base n k (o + j) (omega arith) l)

module _ (fb : Framebuffer) (mode : IsMode fb) where
  open mode use {deep, wide, apart, in_memory}

  whole :
      (rows : ℕ)
      → rows ≤ fb.height
      → (fb.height - rows) * fb.pitch + rows * fb.pitch ≡ fb.height * fb.pitch
  whole rows le =
      let sum : fb.height - rows + rows ≡ fb.height = omega arith in
      omega (arith, ap (λ (t : ℕ). t * fb.pitch) sum)

  row-le-rows : (rows : ℕ) → 0 < rows → fb.pitch ≤ rows * fb.pitch
  row-le-rows rows h = omega (arith, row-below fb mode 0 rows h)

  kvshift-shifted :
      (capabilities : ℕ) (m : Memory) (rows : ℕ)
      → 0 < rows
      → rows < fb.height
      → kvshift capabilities fb m rows
        ≡ some (shifted_buffer m fb.addr (rows * fb.pitch) ((fb.height - rows) * fb.pitch))
  unfolding kvshift shifted_buffer
  kvshift-shifted capabilities m rows some_rows fewer =
      let guards : (rows == 0) || (fb.width == 0) || (fb.height == 0) ≡ false = ground arith in
      let part : leb fb.height rows ≡ false = ground arith in
      let parts : (fb.height - rows) * fb.pitch + rows * fb.pitch ≡ fb.height * fb.pitch =
        whole rows (omega arith) in
      let one_row : fb.pitch ≤ (fb.height - rows) * fb.pitch =
        row-le-rows (fb.height - rows) (omega arith) in
      let kept : mul32 (fb.height - rows) fb.pitch ≡ (fb.height - rows) * fb.pitch =
        omega (arith, parts, in_memory) in
      let gone : mul32 rows fb.pitch ≡ rows * fb.pitch = omega (arith, parts, in_memory) in
      let from : add32 fb.addr (rows * fb.pitch) ≡ fb.addr + rows * fb.pitch =
        omega (arith, parts, in_memory) in
      let rest : add32 fb.addr ((fb.height - rows) * fb.pitch)
          ≡ fb.addr + (fb.height - rows) * fb.pitch =
        omega (arith, parts, in_memory) in
      rw
        (
          guards,
          part,
          kept,
          gone,
          from,
          rest,
          memmove-lower capabilities m fb.addr (fb.addr + rows * fb.pitch)
              ((fb.height - rows) * fb.pitch) (omega (arith, row-le-rows rows some_rows))
              (omega arith),
        )
        (memset-filled capabilities
          (copied m fb.addr (fb.addr + rows * fb.pitch) ((fb.height - rows) * fb.pitch))
          (fb.addr + (fb.height - rows) * fb.pitch) 0 (rows * fb.pitch))

  kvshift-none :
      (capabilities : ℕ) (m : Memory) (rows : ℕ)
      → (rows == 0) ≡ true
      → kvshift capabilities fb m rows ≡ some m
  unfolding kvshift
  kvshift-none capabilities m rows h = rw h

  kvshift-cleared :
      (capabilities : ℕ) (m : Memory) (rows : ℕ)
      → 0 < rows
      → 0 < fb.height
      → fb.height ≤ rows
      → kvshift capabilities fb m rows ≡ some (filled m fb.addr 0 (fb.height * fb.pitch))
  unfolding kvshift
  kvshift-cleared capabilities m rows some_rows some_height all =
      let guards : (rows == 0) || (fb.width == 0) || (fb.height == 0) ≡ false = ground arith in
      let over : leb fb.height rows ≡ true = ground arith in
      let size : mul32 fb.height fb.pitch ≡ fb.height * fb.pitch = omega arith in
      rw (guards, over, size) (memset-filled capabilities m fb.addr 0 (fb.height * fb.pitch))

  -- The pixel at x and y after the shift of the buffer.
  pixel-below :
      (m : Memory) (rows x y : ℕ)
      → y + rows < fb.height
      → x < fb.width
      → read32
          (shifted_buffer m fb.addr (rows * fb.pitch) ((fb.height - rows) * fb.pitch))
          (fb.addr + y * fb.pitch + x * 4)
        ≡ read32 m (fb.addr + (y + rows) * fb.pitch + x * 4)
  pixel-below m rows x y hy hx =
      let n = rows * fb.pitch in
      let k = (fb.height - rows) * fb.pitch in
      let o = y * fb.pitch + x * 4 in
      let inside : o + 3 < k =
        omega (arith, row-below fb mode y (fb.height - rows) (omega arith)) in
      let at : fb.addr + y * fb.pitch + x * 4 ≡ fb.addr + o = omega arith in
      let from : fb.addr + (y + rows) * fb.pitch + x * 4 ≡ fb.addr + n + o = omega arith in
      rw (at, from)
        (read32-ext (shifted_buffer m fb.addr n k) m (fb.addr + o) (fb.addr + n + o)
          (shifted-below m fb.addr n k o (omega arith))
          (shifted-below_at m fb.addr n k o 1 (omega arith))
          (shifted-below_at m fb.addr n k o 2 (omega arith))
          (shifted-below_at m fb.addr n k o 3 inside))

  pixel-above :
      (m : Memory) (rows x y : ℕ)
      → rows < fb.height
      → fb.height ≤ y + rows
      → x < fb.width
      → y < fb.height
      → read32
          (shifted_buffer m fb.addr (rows * fb.pitch) ((fb.height - rows) * fb.pitch))
          (fb.addr + y * fb.pitch + x * 4)
        ≡ 0
  pixel-above m rows x y hr hy hx in_height =
      let n = rows * fb.pitch in
      let k = (fb.height - rows) * fb.pitch in
      let o = y * fb.pitch + x * 4 in
      let buffer = shifted_buffer m fb.addr n k in
      let inside : o + 3 < k + n =
        omega (arith, row-le fb mode y in_height, whole rows (omega arith), apart) in
      let behind : k ≤ o =
        omega (arith, mul-le-mul_right {m = fb.height - rows} {n = y} fb.pitch (omega arith)) in
      let at : fb.addr + y * fb.pitch + x * 4 ≡ fb.addr + o = omega arith in
      let last : fb.addr + o + 2 + 1 ≡ fb.addr + o + 3 = omega arith in
      rw (at, last)
        (omega (
          arith,
          shifted-above m fb.addr n k o behind (omega arith),
          shifted-above_at m fb.addr n k o 1 behind (omega arith),
          shifted-above_at m fb.addr n k o 2 behind (omega arith),
          shifted-above_at m fb.addr n k o 3 behind inside,
        ))

  pixel-cleared :
      (m : Memory) (x y : ℕ)
      → x < fb.width
      → y < fb.height
      → read32 (filled m fb.addr 0 (fb.height * fb.pitch)) (fb.addr + y * fb.pitch + x * 4) ≡ 0
  pixel-cleared m x y hx hy = ground (arith, row-le fb mode y hy, apart)

  -- `kvshift` returns, and every pixel of the mode is then what the pixel `rows` below it was, or 0 where
  -- there is none; this holds for 0 rows, and for as many as the screen has or more.
  pub kgetpixel-kvshift :
      (capabilities : ℕ) (m : Memory) (rows x y : ℕ)
      → x < fb.width
      → y < fb.height
      → (m' : Memory) × (kvshift capabilities fb m rows ≡ some m')
        × (kgetpixel fb m' x y
            ≡ (if ltb (y + rows) fb.height then kgetpixel fb m x (y + rows) else 0))
  kgetpixel-kvshift capabilities m rows x y hx hy =
      let shown : outside fb x y ≡ false = ground arith in
      elim (Bool-cases (rows == 0)) [
        | inl none_at_all ↦
            let below : ltb (y + rows) fb.height ≡ true = ground arith in
            let same : y ≡ y + rows = ground arith in
            (
              m,
              kvshift-none capabilities m rows none_at_all,
              rw below (ap (λ z. kgetpixel fb m x z) same),
            )
        | inr some_rows ↦ elim (Bool-cases (ltb rows fb.height)) [
          | inl part ↦
              let m' = shifted_buffer m fb.addr (rows * fb.pitch) ((fb.height - rows) * fb.pitch) in
              (
                m',
                kvshift-shifted capabilities m rows (ground arith) (ground arith),
                elim (Bool-cases (ltb (y + rows) fb.height)) [
                  | inl below ↦
                      rw
                        (
                          below,
                          kgetpixel-inside fb mode m' x y shown,
                          kgetpixel-inside fb mode m x (y + rows) (ground arith),
                        )
                        (pixel-below m rows x y (ground arith) hx)
                  | inr above ↦
                      rw (above, kgetpixel-inside fb mode m' x y shown)
                        (pixel-above m rows x y (ground arith) (ground arith) hx hy)
                ],
              )
          | inr all ↦
              let m' = filled m fb.addr 0 (fb.height * fb.pitch) in
              let above : ltb (y + rows) fb.height ≡ false = ground arith in
              (
                m',
                kvshift-cleared capabilities m rows (ground arith) (omega arith) (ground arith),
                rw (above, kgetpixel-inside fb mode m' x y shown) (pixel-cleared m x y hx hy),
              )
        ]
      ]
