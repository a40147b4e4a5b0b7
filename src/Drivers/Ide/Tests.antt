-- ===== src/Drivers/Ide/Tests.antt =====
-- The probe on channels where every drive answers at once.
use wolf_os.Base.{ℕ, ◌+◌, []}
use wolf_os.Drivers.Ide.{Kernel}
use wolf_os.Drivers.Ide.Probe.{IdeDevice, Ide}

-- Every register reads as 8: data is there.
abbrev kernel : Kernel ℕ
kernel = record {
  inb = λ port w. (8, w);
  outb = λ port v w. w + 1;
  insl = λ port w. (0x4142_4344, w + 1);
  wait = λ ms w. w + 1;
  kmalloc = λ n w. (65536, w);
}

abbrev no_device : IdeDevice
no_device = record {
  reserved = 0;
  channel = 0;
  drive = 0;
  kind = 0;
  signature = 0;
  capabilities = 0;
  command_sets = 0;
  size_sectors = 0;
  model = [];
}

abbrev fresh : Ide ℕ
fresh = record { ide_devices = λ i. no_device; count = 0; ide_buffer = λ a. 0; world = 0 }
