-- ===== src/Base/Machine.antt =====
-- The memory of the machine as bytes at addresses, and the little-endian words in it.
use Prim.Native.Nat.{ℕ, ◌+◌, ◌*◌, ◌/◌, ◌%◌, ◌^◌}
use wolf_os.Base.Tests.{◌==◌, if◌then◌else◌}

abbrev pub Memory : Type 0
Memory = ℕ → ℕ

-- `mem[a] = v`, of one byte
abbrev pub poke : Memory → ℕ → ℕ → Memory
poke m a v b = if b == a then v else m b

abbrev pub read16 : Memory → ℕ → ℕ
read16 m a = m a + 256 * m (a + 1)

abbrev pub read32 : Memory → ℕ → ℕ
read32 m a = read16 m a + 65536 * read16 m (a + 2)

abbrev pub read64 : Memory → ℕ → ℕ
read64 m a = read32 m a + 2 ^ 32 * read32 m (a + 4)

abbrev pub write32 : Memory → ℕ → ℕ → Memory
write32 m a v =
    poke (poke (poke (poke m a (v % 256)) (a + 1) (v / 256 % 256)) (a + 2) (v / 65536 % 256))
      (a + 3) (v / 2 ^ 24 % 256)
