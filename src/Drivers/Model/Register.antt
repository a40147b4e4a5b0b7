-- ===== src/Drivers/Model/Register.antt =====
-- drivers/drivermodel.c, `register_driver_i` and `register_driver`. The arrays that a driver tells its
-- devices by are read when it is registered; the code keeps pointers to them. What is printed is not
-- modelled.
use wolf_os.Base.{ℕ, zero, suc, ◌+◌, ◌||◌, List, [], ◌∷◌, Option, none, some, ◌==◌, if◌then◌else◌}
use wolf_os.Base.Words.{u32}
use wolf_os.Base.Machine.{Memory, read16, read32}
use wolf_os.Console.Numbers.{Text}
use wolf_os.Progman.Elf.Symbols.{KernelFunction}
use wolf_os.Progman.Elf.Load.{
  Passport, LoadResult, refused, passport_at_null, loaded, load_driver_bin, get_elf_symbol,
}
use wolf_os.Drivers.Model.{DeviceDriver}

-- `driver_tree_base` and `drivers_loaded_total`
pub record Registry : Type 0 where
  pub driver_tree : List DeviceDriver
  pub drivers_loaded_total : ℕ

-- What the driver model uses of the machine: its memory, the allocator, and the call of the init
-- function of a driver, which is loaded code.
pub record Machine (World : Type 0) : Type 0 where
  pub memory : World → Memory
  pub kmalloc : (nbytes : ℕ) → World → ℕ × World
  pub call_init : (init_function : ℕ) → World → ℕ × World
  pub write_image : Memory → World → World

abbrev pub text_init : Text
text_init = b'i' ∷ b'n' ∷ b'i' ∷ b't' ∷ []

-- The names of the symbols after `__driver_`.
abbrev pub after_driver : Text → Text
after_driver rest = b'_' ∷ b'_' ∷ b'd' ∷ b'r' ∷ b'i' ∷ b'v' ∷ b'e' ∷ b'r' ∷ b'_' ∷ rest

abbrev pub text_vidpid : Text
text_vidpid = after_driver (b'v' ∷ b'i' ∷ b'd' ∷ b'p' ∷ b'i' ∷ b'd' ∷ [])

abbrev pub text_vidpid_count : Text
text_vidpid_count =
    after_driver
      (b'v' ∷ b'i' ∷ b'd' ∷ b'p' ∷ b'i' ∷ b'd' ∷ b'_' ∷ b'c' ∷ b'o' ∷ b'u' ∷ b'n' ∷ b't' ∷ [])

abbrev pub text_classes : Text
text_classes = after_driver (b'c' ∷ b'l' ∷ b'a' ∷ b's' ∷ b's' ∷ b'e' ∷ b's' ∷ [])

abbrev pub text_classes_count : Text
text_classes_count =
    after_driver (
      b'c' ∷ b'l' ∷ b'a' ∷ b's' ∷ b's' ∷ b'e' ∷ b's' ∷ b'_' ∷ b'c' ∷ b'o' ∷ b'u' ∷ b'n' ∷ b't' ∷ [])

abbrev pub text_class_priority : Text
text_class_priority = after_driver (
    b'c' ∷ b'l' ∷ b'a' ∷ b's' ∷ b's' ∷ b'_' ∷ b'p' ∷ b'r' ∷ b'i' ∷ b'o' ∷ b'r' ∷ b'i' ∷ b't' ∷ b'y'
    ∷ [])

abbrev pub text_name : Text
text_name = after_driver (b'n' ∷ b'a' ∷ b'm' ∷ b'e' ∷ [])

abbrev pub text_author : Text
text_author = after_driver (b'a' ∷ b'u' ∷ b't' ∷ b'h' ∷ b'o' ∷ b'r' ∷ [])

-- The entries of an array in memory.
unfoldable pub array32 : Memory → (p count : ℕ) → List ℕ
array32 m p zero = []
array32 m p (suc n) = read32 m p ∷ array32 m (p + 4) n

unfoldable pub array16 : Memory → (p count : ℕ) → List ℕ
array16 m p zero = []
array16 m p (suc n) = read16 m p ∷ array16 m (p + 2) n

-- The list at a symbol with the count at another; empty if one of the two is missing.
abbrev pub listed : (array : ℕ → ℕ → List ℕ) → Memory → (symbol count : ℕ) → List ℕ
listed array m symbol count =
    if (symbol == 0) || (count == 0) then [] else array symbol (read32 m count)

-- The record that the function fills in.
unfoldable pub describe_driver :
    Memory → Passport → (init_function init_result drivers_loaded_total : ℕ) → DeviceDriver
describe_driver m p init_function init_result total =
    let symbol : Text → ℕ = get_elf_symbol m (some p) in
    let priority = symbol text_class_priority in
    record {
      init_function = init_function;
      init_result = init_result;
      driver_id = total;
      driver_classes = listed (array16 m) m (symbol text_classes) (symbol text_classes_count);
      driver_vidpid = listed (array32 m) m (symbol text_vidpid) (symbol text_vidpid_count);
      driver_class_priority = if priority == 0 then 0 else read16 m priority;
      driver_name = read32 m (symbol text_name);
      driver_author = read32 m (symbol text_author);
      passport = p;
    }

abbrev pub sizeof_device_driver : ℕ
sizeof_device_driver = 52

module _ {World : Type 0} (machine : Machine World) where
  open machine use {memory, kmalloc, call_init, write_image}

  unfoldable pub enter_driver :
      Passport → (init_function : ℕ) → Registry → World → Option DeviceDriver × Registry × World
  enter_driver p init_function r w =
      let (init_result, w') = call_init init_function w in
      let d = describe_driver (memory w') p init_function init_result r.drivers_loaded_total in
      (
        some d,
        record {
          driver_tree = d ∷ r.driver_tree;
          drivers_loaded_total = u32 (r.drivers_loaded_total + 1);
        },
        w',
      )

  unfoldable pub register_driver_i :
      Passport → Registry → World → Option DeviceDriver × Registry × World
  register_driver_i p r w =
      let init_function = get_elf_symbol (memory w) (some p) text_init in
      let (driver_struct, w') = kmalloc sizeof_device_driver w in
      if init_function == 0
      then (none, r, w)
      else if driver_struct == 0
      then (none, r, w')
      else enter_driver p init_function r w'

  unfoldable pub register_loaded :
      LoadResult → Registry → World → Option DeviceDriver × Registry × World
  register_loaded (refused reason) r w = (none, r, w)
  register_loaded (passport_at_null image) r w = (none, r, write_image image w)
  register_loaded (loaded p image) r w = register_driver_i p r (write_image image w)

  module _ (address_of : KernelFunction → ℕ) (elf_kmalloc : (nbytes : ℕ) → ℕ)
      (kamalloc : (nbytes align : ℕ) → ℕ) where
    unfoldable pub register_driver :
        (bin_driver : ℕ) → Registry → World → Option DeviceDriver × Registry × World
    register_driver bin_driver r w =
        register_loaded (load_driver_bin address_of elf_kmalloc kamalloc (memory w) bin_driver) r w
