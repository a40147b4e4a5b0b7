-- ===== src/Util/Cpu.antt =====
-- util/cpuid.c. The instruction and the control registers are the parameter Processor.
pub mod Enabled
use wolf_os.Base.{ℕ, ◌+◌, ◌-◌, ◌*◌, ◌^◌, bit_and, bit_or, Bool, true, false, if◌then◌else◌}
use wolf_os.Base.Words.{u32, ◌<<◌}
use wolf_os.Base.Machine.{Memory, write32, poke}
use wolf_os.Util.Strings.{cpu_has_feature, feature_sse}

-- What `cpuid` leaves in the registers.
pub record Leaf : Type 0 where
  pub ebx : ℕ
  pub ecx : ℕ
  pub edx : ℕ

-- The processor, and whether the bit of the flags can be changed that tells of `cpuid`.
pub record Processor : Type 0 where
  pub has_cpuid : Bool
  pub cpuid : (eax : ℕ) → Leaf

-- The globals, with the vendor at address 0, and the two control registers.
pub record Cpu : Type 0 where
  pub cpu_vendor : Memory
  pub cpu_capabilities : ℕ
  pub cpu_capabilities_extended : ℕ
  pub cr0 : ℕ
  pub cr4 : ℕ

-- `~(1u << k)`
abbrev pub without_bit : (k : ℕ) → ℕ
without_bit k = 2 ^ 32 - 1 - (1 << k)

-- What follows on the FPU and the registers of SSE is left out.
unfoldable pub enable_sse : Cpu → Cpu
enable_sse c = record c {
  cr0 = bit_and (bit_or (bit_and c.cr0 (without_bit 2)) (1 << 1)) (without_bit 3);
  cr4 = bit_or c.cr4 (bit_or (1 << 9) (1 << 10));
}

unfoldable pub load_vendor : Leaf → Memory → Memory
load_vendor leaf m = poke (write32 (write32 (write32 m 0 leaf.ebx) 4 leaf.edx) 8 leaf.ecx) 12 0

unfoldable pub load_cpuid : Processor → Cpu → Cpu
load_cpuid p c =
    let features = p.cpuid 1 in
    let loaded = record c {
      cpu_vendor = load_vendor (p.cpuid 0) c.cpu_vendor;
      cpu_capabilities = features.edx;
      cpu_capabilities_extended = features.ecx;
    } in
    if p.has_cpuid
    then (if cpu_has_feature loaded.cpu_capabilities feature_sse then enable_sse loaded else loaded)
    else c

-- The characters from the address that `get_cpu_vendor` gives.
unfoldable pub get_cpu_vendor : Cpu → Memory
get_cpu_vendor c = c.cpu_vendor
