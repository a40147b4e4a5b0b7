-- ===== src/Interrupts/Pic.antt =====
-- The two 8259 interrupt controllers and the 8253 timer, as their data sheets say, driven by the
-- writes of `init_idt_and_keyboard`.
use native.Mathlib.Nat.{div-le_of_le-mul, div-mul-le_self, lt-div-mul-add, mod-eq_of_lt}
use wolf_os.Base.{
  ℕ, zero, suc, ◌+◌, ◌*◌, ◌-◌, ◌/◌, ◌%◌, ◌^◌, ◌≤◌, ◌<◌, ◌≡◌, refl, Bool, false, ◌&&◌, List, [], ◌∷◌,
  map, Option, none, some, ltb, ◌==◌, if◌then◌else◌, arith, bit_and, replicate,
}
use wolf_os.Base.Words.{u8, u16, ◌>>◌}
use wolf_os.Base.Bits.{bit_and_mask}
use wolf_os.Interrupts.Stubs.{Label}
use wolf_os.Interrupts.{Idt, Writes, pic_remap, pit_set_frequency, init_idt_and_keyboard}

-- A controller takes commands, or waits for a word of its initialization.
pub data Stage : Type 0 where
  ready word2 word3 word4 : Stage

-- The first vector, the wiring of the cascade, the mode, and the lines that are masked.
pub record Chip : Type 0 where
  pub stage : Stage
  pub vector : ℕ
  pub cascade : ℕ
  pub mode : ℕ
  pub mask : ℕ

-- A byte at the even port: with bit 4 it starts the initialization and clears the mask.
abbrev pub command : ℕ → Chip → Chip
command v c = if v / 16 % 2 == 1 then record c { stage = word2; mask = 0 } else c

-- A byte at the odd port: the next word of the initialization, or the mask.
abbrev pub data_byte_at : Stage → ℕ → Chip → Chip
data_byte_at ready v c = record c { mask = v }
data_byte_at word2 v c = record c { stage = word3; vector = v }
data_byte_at word3 v c = record c { stage = word4; cascade = v }
data_byte_at word4 v c = record c { stage = ready; mode = v }

abbrev pub data_byte : ℕ → Chip → Chip
data_byte v c = data_byte_at c.stage v c

pub record Pics : Type 0 where
  pub master : Chip
  pub slave : Chip

abbrev pub out : (port v : ℕ) → Pics → Pics
out port v p =
    if port == 0x20
    then record p { master = command v p.master }
    else if port == 0x21
    then record p { master = data_byte v p.master }
    else if port == 0xa0
    then record p { slave = command v p.slave }
    else if port == 0xa1
    then record p { slave = data_byte v p.slave }
    else p

unfoldable pub outs : Writes → Pics → Pics
outs [] p = p
outs ((port, v) ∷ w) p = outs w (out port v p)

abbrev pub open_line : (k mask : ℕ) → Bool
open_line k mask = mask / 2 ^ k % 2 == 0

-- The interrupt that a line raises, if it is let through. The second controller is at line 2 of the
-- first.
unfoldable pub delivers : Pics → (line : ℕ) → Option ℕ
delivers p k =
    if ltb k 8
    then (if open_line k p.master.mask then some (p.master.vector + k) else none)
    else if open_line (k - 8) p.slave.mask && open_line 2 p.master.mask
    then some (p.slave.vector + (k - 8))
    else none

abbrev pub lines : List ℕ
lines = 0 ∷ 1 ∷ 2 ∷ 3 ∷ 4 ∷ 5 ∷ 6 ∷ 7 ∷ 8 ∷ 9 ∷ 10 ∷ 11 ∷ 12 ∷ 13 ∷ 14 ∷ 15 ∷ []

-- Whatever state the controllers were in, after the writes of `init_idt_and_keyboard` the timer's line
-- raises interrupt 32, the keyboard's raises 33, and no other line is let through.
pub init_idt_and_keyboard-delivers :
    (address : Label → ℕ) (idt : Idt) (p : Pics)
    → (w : Writes) × ((init_idt_and_keyboard address idt).0 ≡ some w)
      × (map (delivers (outs w p)) lines ≡ some 32 ∷ some 33 ∷ replicate 14 none)
unfolding init_idt_and_keyboard pic_remap pit_set_frequency outs delivers
init_idt_and_keyboard-delivers address idt p = (_, refl, refl)

-- The rate of the timer's input clock, in Hz
abbrev clock : ℕ
clock = 1_193_182

wide_enough : (freq : ℕ) → 19 ≤ freq → clock / freq < 2 ^ 16
wide_enough freq h =
    let most : clock / freq ≤ 62_800 = div-le_of_le-mul freq (omega arith) in omega arith

positive : (q freq : ℕ) → clock < (q + 1) * freq → freq ≤ clock → 1 ≤ q
positive zero freq h le = absurd (omega arith)
positive (suc q) freq h le = omega arith

-- For a frequency between 19 Hz and that of the clock, `pit_set_frequency` selects channel 0 with two
-- bytes and loads the largest count that does not run slower than the frequency asked for.
pub pit_set_frequency-count :
    (freq : ℕ)
    → 19 ≤ freq
    → freq ≤ clock
    → (low : ℕ) × (high : ℕ) × (pit_set_frequency freq
        ≡ some ((0x43, 0x36) ∷ (0x40, low) ∷ (0x40, high) ∷ []))
      × (low < 256)
      × (high < 256)
      × (0 < low + 256 * high)
      × ((low + 256 * high) * freq ≤ clock)
      × (clock < (low + 256 * high + 1) * freq)
unfolding pit_set_frequency
pit_set_frequency-count freq lo hi =
    let q = clock / freq in
    let fits : u16 q ≡ q = mod-eq_of_lt (wide_enough freq lo) in
    let some_freq : (freq == 0) ≡ false = ground arith in
    let sum : q % 256 + 256 * (q / 256) ≡ q = omega arith in
    let low : u8 (bit_and q 0xff) ≡ q % 256 = omega (arith, bit_and_mask 8 q) in
    let high : u8 (bit_and (q >> 8) 0xff) ≡ q / 256 =
      omega (arith, bit_and_mask 8 (q / 256), wide_enough freq lo) in
    let above : clock < (q + 1) * freq =
      grind (arith, lt-div-mul-add {a = clock} {b = freq} (omega arith)) in
    (
      q % 256,
      q / 256,
      rw (some_freq, fits, low, high),
      omega arith,
      omega (arith, wide_enough freq lo),
      rw sum (positive q freq above hi),
      rw sum (div-mul-le_self clock freq),
      rw sum above,
    )
