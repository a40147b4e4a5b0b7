-- ===== src/Util/Strings/Tests.antt =====
-- util/strings.c: runs on fixed inputs, and the theorems at an input that meets their conditions.
use wolf_os.Base.{ℕ, ◌==◌, if◌then◌else◌, ◌≡◌, refl, some, [], ◌∷◌, arith}
use wolf_os.Base.Words.{u8}
use wolf_os.Base.Machine.{Memory, poke}
use wolf_os.Util.Strings.{above, strcmp, strlen, memset, memmove_fast, copy_down, feature_sse}
use wolf_os.Console.Numbers.{Text}
use wolf_os.Util.Strings.Compare.{Holds, Decides, strcmp-Decides}
use wolf_os.Util.Strings.Fill.{filled, memset-filled}
use wolf_os.Util.Strings.Blocks.{memmove_sse}
use wolf_os.Util.Strings.Move.{memmove_sse-copied}
use wolf_os.Util.Strings.Copy.{copied}

-- The byte at an address is the address, up to a terminator at 5.
abbrev ramp : Memory
ramp a = if a == 5 then 0 else u8 a

strlen_runs : strlen 10 ramp 2 ≡ some 3
unfolding strlen
strlen_runs = refl

strcmp_runs : strcmp 10 ramp 2 1 ≡ some (above 1)
unfolding strcmp
strcmp_runs = refl

abbrev two_three_four : Text
two_three_four = 2 ∷ 3 ∷ 4 ∷ []

ramp-Holds : Holds ramp 2 two_three_four
ramp-Holds = (refl, ground arith, (refl, ground arith, (refl, ground arith, refl)))

strcmp-Decides_example : Decides (strcmp 4 ramp 2 2) (two_three_four ≡ two_three_four)
strcmp-Decides_example =
    strcmp-Decides two_three_four two_three_four 4 ramp 2 2 ramp-Holds ramp-Holds (omega arith)

-- A move of two bytes by one address upwards leaves the first byte of the destination.
memmove_runs : memmove_fast ramp 9 8 2 9 ≡ 9
unfolding memmove_fast copy_down
memmove_runs = refl

memset-filled_example : memset feature_sse ramp 1001 0x1ff 100 ≡ some (filled ramp 1001 0xff 100)
memset-filled_example = memset-filled feature_sse ramp 1001 0x1ff 100

memmove_sse-copied_example : memmove_sse ramp 110 100 40 ≡ copied ramp 110 100 40
memmove_sse-copied_example = memmove_sse-copied ramp 110 100 40 (omega arith)

-- A `putchar` that writes one byte of the screen
abbrev putchar : ℕ → Memory → Memory
putchar c m = poke m 0xb8000 c
