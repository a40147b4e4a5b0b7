-- ===== src/Drivers/Model/DeviceTests.antt =====
-- The registration of a driver and the scan of a bus with one disk controller.
use wolf_os.Base.{ℕ, ◌≡◌, refl, inl, List, [], ◌∷◌, none, some, ◌==◌, if◌then◌else◌, arith}
use wolf_os.Drivers.Pci.{Ports, pci_cfg_addr, pci_read_word, pci_read_byte}
use wolf_os.Drivers.Model.{DeviceDriver, find_driver}
use wolf_os.Drivers.Model.Register.{Registry, Machine, register_driver}
use wolf_os.Drivers.Model.Ids.{Keeps, register_driver-Keeps}
use wolf_os.Drivers.Model.Devices.{Hardware, going_on, bind_loop, init_devices}
use wolf_os.Drivers.Model.Binding.{Settles, bind_loop-Settles, bind_loop-stuck}
use wolf_os.Drivers.Model.Present.{Config, Steady, present_buses}
use wolf_os.Drivers.Model.Scan.{Adds, init_devices-Adds}

abbrev driver : (id priority : ℕ) → DeviceDriver
driver i p = record {
  init_function = 4096;
  init_result = 0;
  driver_id = i;
  driver_classes = 0x0101 ∷ [];
  driver_vidpid = [];
  driver_class_priority = p;
  driver_name = 8192;
  driver_author = 8208;
  passport = record { loaded_location = 4096; dynsym = 12288; dynstr = 16384; sym_count = 2 };
}

-- The state is the address that was written last; only the controller at bus 0, device 3 answers.
abbrev ports_of_disk : Ports ℕ
ports_of_disk = record {
  inl = λ port w. (
    if w == pci_cfg_addr 0 3 0 0
        then 0x7010_8086
        else if w == pci_cfg_addr 0 3 0 8
        then 0x0101_0000
        else 0xffff_ffff,
    w,
  );
  outl = λ port v w. if port == 0xcf8 then v else w;
}

-- Driver 1 refuses every device; driver 0 takes it.
abbrev with_binds : Hardware ℕ
with_binds = record {
  ports = ports_of_disk;
  kmalloc = λ n w. (65536, w);
  bind_device_pci = λ d. some (λ b s f w. (if d.driver_id == 1 then 1 else 0, w));
}

abbrev without_binds : Hardware ℕ
without_binds = record {
  ports = ports_of_disk;
  kmalloc = λ n w. (65536, w);
  bind_device_pci = λ d. none;
}

abbrev drivers : List DeviceDriver
drivers = driver 1 7 ∷ driver 0 5 ∷ []

bind_loop-Settles_example : Settles with_binds drivers 1 1 0x8086 0x7010 0 3 0 (
    bind_loop with_binds drivers 1 1 0x8086 0x7010 0 3 0 65536
      (find_driver drivers 1 1 0x8086 0x7010 0xffff)
      0)
bind_loop-Settles_example =
    bind_loop-Settles with_binds drivers 1 1 0x8086 0x7010 0 3 0 (λ e. e, (λ e. e, tt))
      (omega arith) (omega arith) (omega arith) (omega arith) ((_, refl), ((_, refl), tt)) 65536
      0xffff 0 (omega arith)

bind_loop-stuck_example :
    bind_loop without_binds drivers 1 1 0x8086 0x7010 0 3 0 1000 (some (driver 0 5)) 0 ≡ going_on
bind_loop-stuck_example =
    bind_loop-stuck without_binds drivers 1 1 0x8086 0x7010 0 3 0 (driver 0 5) (inl refl) 1000 0

abbrev machine : Machine ℕ
machine = record {
  memory = λ w a. 0;
  kmalloc = λ n w. (65536, w);
  call_init = λ f w. (0, w);
  write_image = λ m w. w;
}

abbrev registry : Registry
registry = record { driver_tree = driver 1 7 ∷ driver 0 5 ∷ []; drivers_loaded_total = 2 }

register_driver-Keeps_example :
    Keeps machine registry
      (register_driver machine (λ f. 4096) (λ n. 61440) (λ n a. 65536) 0x10_0000 registry 0)
register_driver-Keeps_example =
    register_driver-Keeps machine registry (refl, (refl, refl)) (omega arith) (λ f. 4096)
      (λ n. 61440) (λ n a. 65536) 0x10_0000 0

abbrev word : Config
word b d f o = (pci_read_word ports_of_disk b d f o 0).0

abbrev byte : Config
byte b d f o = (pci_read_byte ports_of_disk b d f o 0).0

with_binds-Steady : Steady with_binds drivers word byte (λ w. Unit {0})
unfolding pci_read_word pci_read_byte
with_binds-Steady = record {
  word_read = λ b d f o w inv. (refl, tt);
  byte_read = λ b d f o w inv. (refl, tt);
  allocates = λ w inv. tt;
  offers = ((_, refl, λ b d f w inv. tt), ((_, refl, λ b d f w inv. tt), tt));
  unnamed = λ b d f. (λ e. e, (λ e. e, tt));
}

init_devices-Adds_example :
    Adds with_binds drivers 65536 word byte
      (λ w. Unit {0})
      with_binds-Steady
      (omega arith)
      (present_buses word byte 0 256)
      (init_devices with_binds drivers 65536 ([], 0))
      []
init_devices-Adds_example =
    init_devices-Adds with_binds drivers 65536 word byte (λ w. Unit {0}) with_binds-Steady
      (omega arith) [] 0 tt
