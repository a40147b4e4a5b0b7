-- ===== src/Drivers/Model.antt =====
-- drivers/drivermodel.c, `find_driver`. The list of drivers hangs at `driver_tree_base`; it is modelled
-- by the drivers in order.
pub mod Finding
pub mod Register
pub mod Ids
pub mod Devices
pub mod Binding
pub mod Offering
pub mod Present
pub mod Scan
pub mod Tests
pub mod DeviceTests
use wolf_os.Base.{
  ℕ, ◌+◌, ◌*◌, ◌%◌, ◌^◌, Bool, true, false, ◌&&◌, List, [], ◌∷◌, Option, none, some, ltb, leb, ◌==◌,
  if◌then◌else◌,
}
use wolf_os.Base.Words.{u16, u32, ◌<<◌}
use wolf_os.Progman.Elf.Load.{Passport}

-- `struct device_driver` without its kind, which is always the same. The counts of the arrays are the
-- lengths of the lists.
pub record DeviceDriver : Type 0 where
  pub init_function : ℕ
  pub init_result : ℕ
  pub driver_id : ℕ
  pub driver_classes : List ℕ
  pub driver_vidpid : List ℕ
  pub driver_class_priority : ℕ
  pub driver_name : ℕ
  pub driver_author : ℕ
  pub passport : Passport

-- The driver found for the class so far, and its priority.
pub record Candidate : Type 0 where
  pub generic_found : Option DeviceDriver
  pub generic_priority : ℕ

-- The loop over the classes of a driver.
unfoldable pub class_loop :
    (classdata max_priority : ℕ) → DeviceDriver → (classes : List ℕ) → Candidate → Candidate
class_loop classdata max d [] g = g
class_loop classdata max d (c ∷ cs) g =
    let p = d.driver_class_priority in
    class_loop classdata max d cs (
      if (c == classdata) && leb g.generic_priority p && ltb p max
      then record { generic_found = some d; generic_priority = p }
      else g)

-- The loop over the devices of a driver: whether it returns.
unfoldable pub vidpid_loop : (vidpid : ℕ) → List ℕ → Bool
vidpid_loop vidpid [] = false
vidpid_loop vidpid (v ∷ vs) = if v == vidpid then true else vidpid_loop vidpid vs

unfoldable pub driver_loop :
    (classdata vidpid max_priority : ℕ) → List DeviceDriver → Candidate → Option DeviceDriver
driver_loop classdata vidpid max [] g = g.generic_found
driver_loop classdata vidpid max (d ∷ ds) g =
    let rest =
      driver_loop classdata vidpid max ds (class_loop classdata max d d.driver_classes g) in
    if vidpid_loop vidpid d.driver_vidpid then some d else rest

unfoldable pub find_driver :
    (driver_tree : List DeviceDriver)
    → (class subclass vid pid max_priority : ℕ) → Option DeviceDriver
find_driver drivers class subclass vid pid max =
    driver_loop (u16 ((class << 8) + subclass)) (u32 ((vid << 16) + pid)) max drivers
      (record { generic_found = none; generic_priority = 0 })
