-- ===== src/Drivers/Framebuffer/Pixels.antt =====
-- Pixels are stored apart from one another.
use native.Mathlib.Nat.{mul-le-mul_right}
use wolf_os.Base.{
  ℕ, suc, ◌+◌, ◌*◌, ◌/◌, ◌^◌, ◌≤◌, ◌<◌, ◌≡◌, ap, ◌∙◌, ◌⊎◌, true, false, ◌&&◌, ltb, ◌==◌,
  if◌then◌else◌, Bool-cases, inl, inr, arith,
}
use wolf_os.Base.Machine.{Memory, read32, write32}
use wolf_os.Drivers.Framebuffer.{Framebuffer, pixel_address, outside, kgetpixel, ksetpixel}

-- A mode of four bytes for a pixel, whose rows do not overlap and lie in memory.
pub record IsMode (fb : Framebuffer) : Type 0 where
  pub deep : fb.bpp ≡ 32
  pub wide : 160 ≤ fb.width
  pub apart : fb.width * 4 ≤ fb.pitch
  pub in_memory : fb.addr + fb.height * fb.pitch < 2 ^ 32

-- The four bytes of a word, written and read again.
read32-write32 : (m : Memory) (a c : ℕ) → c < 2 ^ 32 → read32 (write32 m a c) a ≡ c
read32-write32 m a c h = ground arith

read32-write32_other :
    (m : Memory) (a b c : ℕ) → (a + 4 ≤ b) ⊎ (b + 4 ≤ a) → read32 (write32 m a c) b ≡ read32 m b
read32-write32_other m a b c h = ground (arith, h)

module _ (fb : Framebuffer) (mode : IsMode fb) where
  open mode use {deep, wide, apart, in_memory}

  -- A pixel's four bytes are inside its row, and the row inside the buffer.
  pub row-le : (y : ℕ) → y < fb.height → y * fb.pitch + fb.pitch ≤ fb.height * fb.pitch
  row-le y h = omega (arith, mul-le-mul_right {m = suc y} {n = fb.height} fb.pitch h)

  pub pixel_address-eq :
      (x y : ℕ)
      → x < fb.width
      → y < fb.height
      → pixel_address fb x y ≡ fb.addr + y * fb.pitch + x * 4
  unfolding pixel_address
  pixel_address-eq x y hx hy =
      let bytes : fb.bpp / 8 ≡ 4 = omega (arith, deep) in
      rw bytes (omega (arith, row-le y hy, apart, in_memory))

  pub row-below : (y y' : ℕ) → y < y' → y * fb.pitch + fb.pitch ≤ y' * fb.pitch
  row-below y y' h = omega (arith, mul-le-mul_right {m = suc y} {n = y'} fb.pitch h)

  pixels_apart :
      (x y x' y' : ℕ)
      → x < fb.width
      → x' < fb.width
      → (x' == x) ≡ false ⊎ ((y' == y) ≡ false)
      → (fb.addr + y * fb.pitch + x * 4 + 4 ≤ fb.addr + y' * fb.pitch + x' * 4)
        ⊎ (fb.addr + y' * fb.pitch + x' * 4 + 4 ≤ fb.addr + y * fb.pitch + x * 4)
  pixels_apart x y x' y' hx hx' ne = elim (Bool-cases (y' == y)) [
    | inl e ↦
        let same : y' ≡ y = ground arith in
        let side : (x' == x) ≡ false = ground (arith, ne) in rw same (ground arith)
    | inr ny ↦ elim (Bool-cases (ltb y y')) [
      | inl lt ↦ inl (omega (arith, row-below y y' (ground arith), apart))
      | inr ge ↦ inr (omega (arith, row-below y' y (ground arith), apart))
    ]
  ]

  read_back :
      (m : Memory) (x y c x' y' : ℕ)
      → c < 2 ^ 32
      → x < fb.width
      → x' < fb.width
      → read32 (write32 m (fb.addr + y * fb.pitch + x * 4) c) (fb.addr + y' * fb.pitch + x' * 4)
        ≡ (if (x' == x) && (y' == y) then c else read32 m (fb.addr + y' * fb.pitch + x' * 4))
  read_back m x y c x' y' small hx hx' =
      let a = fb.addr + y * fb.pitch + x * 4 in
      let a' = fb.addr + y' * fb.pitch + x' * 4 in
      elim (Bool-cases (x' == x)) [
        | inr nx ↦ rw nx (read32-write32_other m a a' c (pixels_apart x y x' y' hx hx' (inl nx)))
        | inl ex ↦ elim (Bool-cases (y' == y)) [
          | inr ny ↦
              rw (ex, ny) (read32-write32_other m a a' c (pixels_apart x y x' y' hx hx' (inr ny)))
          | inl ey ↦
              let same_x : x' ≡ x = ground arith in
              let same_y : y' ≡ y = ground arith in
              rw (ex, ey)
                ((λ i. read32 (write32 m a c) (fb.addr + same_y i * fb.pitch + same_x i * 4))
                  ∙ read32-write32 m a c small)
        ]
      ]

  pub kgetpixel-inside :
      (m : Memory) (x y : ℕ)
      → outside fb x y ≡ false
      → kgetpixel fb m x y ≡ read32 m (fb.addr + y * fb.pitch + x * 4)
  unfolding kgetpixel
  kgetpixel-inside m x y h =
      rw h (ap (read32 m) (pixel_address-eq x y (ground arith) (ground arith)))

  ksetpixel-inside :
      (m : Memory) (x y c : ℕ)
      → outside fb x y ≡ false
      → ksetpixel fb m x y c ≡ write32 m (fb.addr + y * fb.pitch + x * 4) c
  unfolding ksetpixel
  ksetpixel-inside m x y c h =
      rw h (ap (λ a. write32 m a c) (pixel_address-eq x y (ground arith) (ground arith)))

  pub kgetpixel-outside : (m : Memory) (x y : ℕ) → outside fb x y ≡ true → kgetpixel fb m x y ≡ 0
  unfolding kgetpixel
  kgetpixel-outside m x y h = rw h

  ksetpixel-outside : (m : Memory) (x y c : ℕ) → outside fb x y ≡ true → ksetpixel fb m x y c ≡ m
  unfolding ksetpixel
  ksetpixel-outside m x y c h = rw h

  -- A pixel inside the mode that is set is read back, and no other pixel changes; a pixel outside the
  -- mode is not set, and its color is 0.
  pub kgetpixel-ksetpixel :
      (m : Memory) (x y c x' y' : ℕ)
      → c < 2 ^ 32
      → (kgetpixel fb (ksetpixel fb m x y c) x' y' ≡ (
          if outside fb x y
          then kgetpixel fb m x' y'
          else if (x' == x) && (y' == y)
          then c
          else kgetpixel fb m x' y'))
        × ((outside fb x' y' ≡ false) ⊎ (kgetpixel fb m x' y' ≡ 0))
  kgetpixel-ksetpixel m x y c x' y' small = (
    elim (Bool-cases (outside fb x y)) [
      | inl out ↦ rw (ksetpixel-outside m x y c out, out)
      | inr inside ↦ elim (Bool-cases (outside fb x' y')) [
        | inl out' ↦
            rw
              (
                kgetpixel-outside (ksetpixel fb m x y c) x' y' out',
                kgetpixel-outside m x' y' out',
                inside,
              )
              (ground (arith, inside, out'))
        | inr inside' ↦
            rw
              (
                kgetpixel-inside (ksetpixel fb m x y c) x' y' inside',
                kgetpixel-inside m x' y' inside',
                ksetpixel-inside m x y c inside,
                inside,
              )
              (read_back m x y c x' y' small (ground (arith, inside)) (ground (arith, inside')))
      ]
    ],
    elim (Bool-cases (outside fb x' y')) [
      | inl out' ↦ inr (kgetpixel-outside m x' y' out')
      | inr inside' ↦ inl inside'
    ],
  )
