-- ===== src/Util/Tests.antt =====
-- util/: runs on fixed inputs, and the theorems at an input that meets their conditions.
use wolf_os.Base.{
  List, ◌≤◌, ◌<◌, ℕ, ◌+◌, ◌-◌, ◌^◌, ◌≡◌, refl, arith, [], ◌∷◌, some, true, ◌&&◌, if◌then◌else◌,
}
use wolf_os.Base.Words.{u64}
use wolf_os.Interrupts.{Machine, returned}
use wolf_os.Util.Strings.{cpu_has_feature, feature_sse}
use wolf_os.Util.Ticks.{Halt, wait, wait-counts}
use wolf_os.Util.Cpu.{Processor, Cpu, load_cpuid, enable_sse}
use wolf_os.Util.Cpu.Enabled.{cr0_enabled, cr4_enabled, load_cpuid-enables}
use wolf_os.Util.Division.{udivmod64, udivmod64-div-mod, divide_loop, divide_bit}

divides : udivmod64 1_000_000_007 1000 ≡ record { q = 1_000_000; r = 7 }
unfolding udivmod64 divide_loop divide_bit
divides = refl

udivmod64-div-mod_example :
    udivmod64 0xffff_ffff_ffff_ffff 10 ≡ record { q = 1_844_674_407_370_955_161; r = 5 }
udivmod64-div-mod_example = udivmod64-div-mod 0xffff_ffff_ffff_ffff 10 (omega arith) (omega arith)

-- The keyboard and the timer between two tests, and the timer twice, close to where 32 bits wrap around.
abbrev before_wrap : Machine
before_wrap = record { ticks = 2 ^ 32 - 1; writes = []; screen = some [] }

abbrev halts : List Halt
halts =
    record { earliest = 33; later = 32 ∷ [] }
    ∷ record { earliest = 32; later = 32 ∷ [] }
    ∷ record { earliest = 32; later = [] }
    ∷ []

wait-counts_example :
    (t : Machine) × (k : ℕ) × (wait 30 2 halts before_wrap ≡ some (returned t))
    × (t.ticks ≡ u64 (2 ^ 32 - 1 + k))
    × (2 ≤ k)
    × (k < 2 + 2)
wait-counts_example =
    wait-counts 30 2 2 halts before_wrap (omega arith) (omega arith) (omega arith) (omega arith)
      (omega arith)

-- A processor with SSE and the FPU, in protected mode with emulation on.
abbrev with_sse : Processor
with_sse = record {
  has_cpuid = true;
  cpuid = λ eax. record { ebx = 0x756e_6547; ecx = 0x6c65_746e; edx = 0x4965_6e69 };
}

abbrev at_reset : Cpu
at_reset = record {
  cpu_vendor = λ a. 0;
  cpu_capabilities = 0;
  cpu_capabilities_extended = 0;
  cr0 = 0x8000_001d;
  cr4 = 0x20;
}

load_cpuid-enables_example :
    ((feature : ℕ)
      → cpu_has_feature (load_cpuid with_sse at_reset).cpu_capabilities feature
        ≡ (true && cpu_has_feature 0x4965_6e69 feature))
    × ((load_cpuid with_sse at_reset).cr0 ≡ (
        if cpu_has_feature (load_cpuid with_sse at_reset).cpu_capabilities feature_sse
        then cr0_enabled 0x8000_001d
        else 0x8000_001d))
    × ((load_cpuid with_sse at_reset).cr4 ≡ (
        if cpu_has_feature (load_cpuid with_sse at_reset).cpu_capabilities feature_sse
        then cr4_enabled 0x20
        else 0x20))
load_cpuid-enables_example = load_cpuid-enables with_sse at_reset (omega arith) refl

enabled_example : (load_cpuid with_sse at_reset).cr0 ≡ 0x8000_001d
unfolding load_cpuid cpu_has_feature enable_sse
enabled_example = refl
