-- ===== src/Util/Early.antt =====
-- util/earlyutil.c, what is printed before there is a console. A write to a port is a pair of the port
-- and the byte.
use wolf_os.Base.{ℕ, zero, suc, ◌+◌, ◌*◌, ◌≡◌, [], ◌∷◌, ◌&&◌, ltb, leb, if◌then◌else◌, arith}
use wolf_os.Base.Machine.{Memory, poke}
use wolf_os.Console.Numbers.{Text}
use wolf_os.Interrupts.{Writes}

-- The port of the emulator's log.
unfoldable pub qemuearlyprint : Text → Writes
qemuearlyprint [] = []
qemuearlyprint (c ∷ rest) = (0xe9, c) ∷ qemuearlyprint rest

-- The format is not used.
abbrev pub bios_print : (message : Text) (format : ℕ) → Writes
bios_print message format = qemuearlyprint message

-- What `panic` writes before it stops for ever, without interrupts.
abbrev pub panic : (message : Text) → Writes
panic message = bios_print message 0xc

abbrev pub bios_framebuffer : ℕ
bios_framebuffer = 0xb8000

unfoldable pub clear_loop : (i left : ℕ) → Memory → Memory
clear_loop i zero m = m
clear_loop i (suc k) m = clear_loop (i + 1) k (poke m (bios_framebuffer + i) 0)

-- The text screen, and `cursor`.
unfoldable pub bios_clear : Memory → Memory × ℕ
bios_clear m = (clear_loop 0 (80 * 25 * 2) m, 0)

-- Only the 4000 bytes of the screen change, and they are 0.
clear_loop-cleared :
    (i k : ℕ) (m : Memory) (a : ℕ)
    → clear_loop i k m a
      ≡ (if leb (bios_framebuffer + i) a && ltb a (bios_framebuffer + i + k) then 0 else m a)
unfolding clear_loop
clear_loop-cleared i zero m a = ground arith
clear_loop-cleared i (suc k) m a =
    ground (arith, clear_loop-cleared (i + 1) k (poke m (bios_framebuffer + i) 0) a)

bios_clear-cleared :
    (m : Memory) (a : ℕ) → (bios_clear m).0 a ≡ (if leb 0xb8000 a && ltb a 0xb8fa0 then 0 else m a)
unfolding bios_clear
bios_clear-cleared m a = clear_loop-cleared 0 4000 m a
