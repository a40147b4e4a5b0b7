-- ===== src/Util/Strings/Blocks.antt =====
-- util/strings.c, the copies in blocks of 16 bytes: `memcpy_sse` and `memmove_sse`.
use wolf_os.Base.{
  ℕ, zero, suc, ◌+◌, ◌-◌, ◌*◌, ◌/◌, ◌%◌, ◌^◌, bit_and, ◌&&◌, ltb, leb, ◌==◌, if◌then◌else◌,
}
use wolf_os.Base.Machine.{Memory, poke}
use wolf_os.Util.Strings.{copy_up, memcpy_fast, memmove_fast, cpu_has_feature, feature_sse}

-- The memory, the two pointers, and the bytes that are left.
pub record Moving : Type 0 where
  pub memory : Memory
  pub d : ℕ
  pub s : ℕ
  pub n : ℕ

abbrev pub moving : Memory → (d s n : ℕ) → Moving
moving m d s n = record { memory = m; d = d; s = s; n = n }

-- `while (((uintptr_t)d & 0xF) && n)`, upwards
unfoldable pub align_up : Memory → (d s n : ℕ) → Moving
align_up m d s zero = moving m d s 0
align_up m d s (suc n) =
    let rest = align_up (poke m d (m s)) (d + 1) (s + 1) n in
    if bit_and d 0xf == 0 then moving m d s (suc n) else rest

-- The same downwards, from the ends of the two regions.
unfoldable pub align_down : Memory → (d s n : ℕ) → Moving
align_down m d s zero = moving m d s 0
align_down m d s (suc n) =
    let rest = align_down (poke m (d - 1) (m (s - 1))) (d - 1) (s - 1) n in
    if bit_and d 0xf == 0 then moving m d s (suc n) else rest

-- `movdqu` to a register and from it: 16 bytes are read before any is written.
abbrev pub move_block : Memory → (d s : ℕ) → Memory
move_block m d s b = if leb d b && ltb b (d + 16) then m (s + (b - d)) else m b

unfoldable pub move_blocks : Memory → (d s rounds : ℕ) → Memory
move_blocks m d s zero = m
move_blocks m d s (suc k) = move_blocks (move_block m d s) (d + 16) (s + 16) k

unfoldable pub move_blocks_down : Memory → (d s rounds : ℕ) → Memory
move_blocks_down m d s zero = m
move_blocks_down m d s (suc k) =
    move_blocks_down (move_block m (d - 16) (s - 16)) (d - 16) (s - 16) k

-- The loop in assembly counts down before it tests: from 0 it makes 2 ^ 32 rounds.
unfoldable pub rounds_of : (chunks : ℕ) → ℕ
rounds_of chunks = if chunks == 0 then 2 ^ 32 else chunks

-- `while`-loop over the bytes that are left, downwards
unfoldable pub copy_back : Memory → (d s n : ℕ) → Memory
copy_back m d s zero = m
copy_back m d s (suc n) = copy_back (poke m (d - 1) (m (s - 1))) (d - 1) (s - 1) n

-- What follows the alignment, upwards.
unfoldable pub blocks_up : Moving → Memory
blocks_up w =
    let k = rounds_of (w.n / 16) in
    copy_up (move_blocks w.memory w.d w.s k) (w.d + 16 * k) (w.s + 16 * k) (w.n % 16)

unfoldable pub blocks_down : Moving → Memory
blocks_down w =
    let k = rounds_of (w.n / 16) in
    copy_back (move_blocks_down w.memory w.d w.s k) (w.d - 16 * k) (w.s - 16 * k) (w.n % 16)

-- `putchar` is what a call of it does to the memory; the routine prints a 'w'.
unfoldable pub memcpy_sse : (putchar : ℕ → Memory → Memory) → Memory → (dest src n : ℕ) → Memory
memcpy_sse putchar m d s n =
    let w = align_up m d s n in blocks_up (record w { memory = putchar b'w' w.memory })

unfoldable pub memmove_sse : Memory → (dest src n : ℕ) → Memory
memmove_sse m d s n =
    if ltb d s
    then blocks_up (align_up m d s n)
    else if ltb s d
    then blocks_down (align_down m (d + n) (s + n) n)
    else m

unfoldable pub memcpy :
    (capabilities : ℕ) → (putchar : ℕ → Memory → Memory) → Memory → (dst src n : ℕ) → Memory
memcpy capabilities putchar m d s n =
    if cpu_has_feature capabilities feature_sse
    then memcpy_sse putchar m d s n
    else memcpy_fast m d s n

unfoldable pub memmove : (capabilities : ℕ) → Memory → (dst src n : ℕ) → Memory
memmove capabilities m d s n =
    if cpu_has_feature capabilities feature_sse then memmove_sse m d s n else memmove_fast m d s n
