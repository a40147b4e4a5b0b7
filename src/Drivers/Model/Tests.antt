-- ===== src/Drivers/Model/Tests.antt =====
-- drivers/drivermodel.c: the theorem at drivers of one class, of which two have the same priority.
use wolf_os.Base.{ℕ, List, [], ◌∷◌, some, ◌≡◌, refl, arith}
use wolf_os.Drivers.Model.{DeviceDriver, find_driver, driver_loop, class_loop, vidpid_loop}
use wolf_os.Drivers.Model.Finding.{Finds, find_driver-Finds}

abbrev driver : (id priority : ℕ) → List ℕ → DeviceDriver
driver i p devices = record {
  init_function = 4096;
  init_result = 0;
  driver_id = i;
  driver_classes = 0x0101 ∷ [];
  driver_vidpid = devices;
  driver_class_priority = p;
  driver_name = 8192;
  driver_author = 8208;
  passport = record { loaded_location = 4096; dynsym = 12288; dynstr = 16384; sym_count = 2 };
}

abbrev drivers : List DeviceDriver
drivers = driver 0 5 [] ∷ driver 1 7 [] ∷ driver 2 7 [] ∷ driver 3 1 (0x8086_7010 ∷ []) ∷ []

by_class : find_driver drivers 1 1 0x1234 0x5678 0xffff ≡ some (driver 2 7 [])
unfolding find_driver driver_loop class_loop vidpid_loop
by_class = refl

by_device : find_driver drivers 1 1 0x8086 0x7010 0 ≡ some (driver 3 1 (0x8086_7010 ∷ []))
unfolding find_driver driver_loop class_loop vidpid_loop
by_device = refl

find_driver-Finds_example :
    Finds 0x0101 0x1234_5678 0xffff drivers (find_driver drivers 1 1 0x1234 0x5678 0xffff)
find_driver-Finds_example =
    find_driver-Finds drivers 1 1 0x1234 0x5678 0xffff (omega arith) (omega arith) (omega arith)
      (omega arith)
