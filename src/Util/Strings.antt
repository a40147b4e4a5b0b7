-- ===== src/Util/Strings.antt =====
-- util/strings.c: the comparison and the length of strings, and the routines that fill and copy
-- memory. A pointer past the end of memory is not defined in C, and addresses do not wrap here.
pub mod Fill
pub mod Copy
pub mod Compare
pub mod Blocks
pub mod Join
pub mod Upwards
pub mod Downwards
pub mod Move
pub mod Tests
use wolf_os.Base.{
  ℕ, zero, suc, ◌+◌, ◌-◌, ◌*◌, ◌/◌, ◌%◌, ◌^◌, ◌≤◌, bit_and, Bool, true, false, ◌&&◌, not, List, [],
  ◌∷◌, Option, none, some, ltb, leb, ◌==◌, if◌then◌else◌,
}
use wolf_os.Base.Words.{u8, u32, mul32}
use wolf_os.Base.Machine.{Memory, poke}

-- A difference as C gives it: the first number above the second, or how far it is below.
pub data Sign : Type 0 where
  above : ℕ → Sign
  below : ℕ → Sign

abbrev pub difference : ℕ → ℕ → Sign
difference a b = if leb b a then above (a - b) else below (b - a)

-- `none` is a walk that met no terminator in its rounds.
unfoldable pub strcmp : (rounds : ℕ) → Memory → (a b : ℕ) → Option Sign
strcmp zero m a b = none
strcmp (suc k) m a b =
    let rest = strcmp k m (a + 1) (b + 1) in
    if not (m a == 0) && (m a == m b) then rest else some (difference (m a) (m b))

unfoldable pub strlen : (rounds : ℕ) → Memory → (s : ℕ) → Option ℕ
strlen zero m s = none
strlen (suc k) m s =
    let rest = strlen k m (s + 1) in
    if m s == 0 then some 0 else elim rest [ none ↦ none | some n ↦ some (suc n) ]

-- n bytes, one after the other
unfoldable pub fill : Memory → (ptr value n : ℕ) → Memory
fill m p v zero = m
fill m p v (suc n) = fill (poke m p v) (p + 1) v n

unfoldable pub memset_fast : Memory → (dst val n : ℕ) → Memory
memset_fast m dst val n = if n == 0 then m else fill m dst (u8 val) n

-- `movdqa`: sixteen bytes of a register that holds one 32-bit word four times; an address that is
-- not a multiple of 16 is a fault.
unfoldable pub store_chunk : Memory → (ptr word : ℕ) → Option Memory
store_chunk m p w =
    if p % 16 == 0
    then some (λ b. if leb p b && ltb b (p + 16) then w / 2 ^ (8 * ((b - p) % 4)) % 256 else m b)
    else none

abbrev pub and_then : Option Memory → (Memory → Option Memory) → Option Memory
and_then none f = none
and_then (some m) f = f m

unfoldable pub store_chunks : Memory → (ptr word chunks : ℕ) → Option Memory
store_chunks m p w zero = some m
store_chunks m p w (suc k) = and_then (store_chunk m p w) (λ m'. store_chunks m' (p + 16) w k)

-- The first loop of `memset_sse`: how many bytes it fills.
abbrev pub align_bytes : (dst n : ℕ) → ℕ
align_bytes dst n =
    let over = bit_and dst 15 in if over == 0 then 0 else if ltb n (16 - over) then n else 16 - over

abbrev pub splat : (value : ℕ) → ℕ
splat value = let low = bit_and value 0xff in if low == 0 then 0 else mul32 0x0101_0101 low

unfoldable pub memset_sse : Memory → (dst value n : ℕ) → Option Memory
memset_sse m dst value n =
    let a = align_bytes dst n in
    let chunks = (n - a) / 16 in
    and_then (store_chunks (fill m dst (u8 value) a) (dst + a) (splat value) chunks)
      (λ m'. some (fill m' (dst + a + 16 * chunks) (u8 value) ((n - a) % 16)))

-- `rep movsb` upwards and, with the direction flag set, downwards
unfoldable pub copy_up : Memory → (d s n : ℕ) → Memory
copy_up m d s zero = m
copy_up m d s (suc n) = copy_up (poke m d (m s)) (d + 1) (s + 1) n

unfoldable pub copy_down : Memory → (d s n : ℕ) → Memory
copy_down m d s zero = m
copy_down m d s (suc n) = copy_down (poke m d (m s)) (d - 1) (s - 1) n

unfoldable pub memcpy_fast : Memory → (dst src n : ℕ) → Memory
memcpy_fast m d s n = if n == 0 then m else copy_up m d s n

unfoldable pub memmove_fast : Memory → (dst src n : ℕ) → Memory
memmove_fast m d s n =
    if d == s
    then m
    else if n == 0
    then m
    else if ltb d s
    then copy_up m d s n
    else copy_down m (d + n) (s + n) n

abbrev pub feature_sse : ℕ
feature_sse = 2 ^ 25

-- `cpu_has_feature` of util/cpuid.c
unfoldable pub cpu_has_feature : (capabilities feature : ℕ) → Bool
cpu_has_feature capabilities feature = not (bit_and capabilities feature == 0)

unfoldable pub memset : (capabilities : ℕ) → Memory → (dst value n : ℕ) → Option Memory
memset capabilities m dst value n =
    if cpu_has_feature capabilities feature_sse
    then memset_sse m dst value n
    else some (memset_fast m dst value n)
