-- ===== src/Drivers/Model/Devices.antt =====
-- drivers/drivermodel.c, `device_from_pci` and `init_devices`. The list of devices hangs at
-- `device_tree_base`. What is printed is not modelled.
use wolf_os.Base.{
  ℕ, zero, suc, ◌+◌, ◌==◌, not, bit_and, List, ◌∷◌, Option, none, some, if◌then◌else◌,
}
use wolf_os.Drivers.Pci.{Ports, pci_read_word, pci_read_byte}
use wolf_os.Drivers.Model.{DeviceDriver, find_driver}

-- `struct device`
pub record Device : Type 0 where
  pub vendor_id : ℕ
  pub device_id : ℕ
  pub dev_function : ℕ
  pub device_class : ℕ
  pub device_subclass : ℕ
  pub assigned_driver : Option DeviceDriver

-- A run ends, stops in `panic`, or is still going on when the rounds are used up.
pub data Outcome (A : Type 0) : Type 0 where
  done : A → Outcome A
  panicked : Outcome A
  going_on : Outcome A

module _ {A B : Type 0} where
  infixl 5 ◌>>=◌
  abbrev pub ◌>>=◌ : Outcome A → (A → Outcome B) → Outcome B
  done a >>= f = f a
  panicked >>= f = panicked
  going_on >>= f = going_on

-- What is used of the machine: the ports, the allocator, and the function `bind_device_pci` of a
-- driver, which is loaded code and can be missing. Its result is 0 if the driver takes the device.
pub record Hardware (World : Type 0) : Type 0 where
  pub ports : Ports World
  pub kmalloc : (nbytes : ℕ) → World → ℕ × World
  pub bind_device_pci : DeviceDriver → Option ((bus device func : ℕ) → World → ℕ × World)

abbrev pub sizeof_device : ℕ
sizeof_device = 16

module _ {World : Type 0} (hardware : Hardware World) (drivers : List DeviceDriver) where
  open hardware use {ports, kmalloc, bind_device_pci}

  module _ (class subclass vid pid bus device func : ℕ) where
    -- A round of the `while` over `assigned_driver`: `same` goes on with the same driver, `next` with
    -- the next one that is found. A round without a bind function changes nothing.
    unfoldable pub try_bind :
        DeviceDriver
        → Option ((bus device func : ℕ) → World → ℕ × World)
        → (same next : World → Outcome (Option DeviceDriver × World)) → World
        → Outcome (Option DeviceDriver × World)
    try_bind d none same next w = same w
    try_bind d (some bind) same next w =
        let (result, w') = bind bus device func w in
        if result == 0
        then done (some d, w')
        else if d.driver_class_priority == 0
        then done (some d, w')
        else next w'

    unfoldable pub bind_loop :
        (rounds : ℕ) → Option DeviceDriver → World → Outcome (Option DeviceDriver × World)
    bind_loop zero assigned w = going_on
    bind_loop (suc n) none w = done (none, w)
    bind_loop (suc n) (some d) w =
        try_bind d (bind_device_pci d) (bind_loop n (some d))
          (bind_loop n (find_driver drivers class subclass vid pid d.driver_class_priority)) w

  -- The devices, and the state of the machine.
  abbrev pub Tree : Type 0
  Tree = List Device × World

  -- From the record of the device on.
  unfoldable pub enter_device :
      (rounds class subclass vid pid bus device func : ℕ) → Tree → Outcome Tree
  enter_device rounds class subclass vid pid bus device func (devices, w) =
      let (dev_data, w') = kmalloc sizeof_device w in
      let first = find_driver drivers class subclass vid pid 0xffff in
      if dev_data == 0 then panicked else do
        (assigned, w'') ← bind_loop class subclass vid pid bus device func rounds first w'
        done (
          record {
            vendor_id = vid;
            device_id = pid;
            dev_function = func;
            device_class = class;
            device_subclass = subclass;
            assigned_driver = assigned;
          }
              ∷ devices,
          w'',
        )

  -- `device_from_pci` of one function; `others` is the loop over the other functions of the device.
  unfoldable pub visit_function :
      (rounds : ℕ) (others : Tree → Outcome Tree) (bus device func : ℕ) → Tree → Outcome Tree
  visit_function rounds others bus device func (devices, w) =
      let (vendor, w1) = pci_read_word ports bus device func 0 w in
      let (id, w2) = pci_read_word ports bus device func 2 w1 in
      let (class, w3) = pci_read_byte ports bus device func 0x0b w2 in
      let (subclass, w4) = pci_read_byte ports bus device func 0x0a w3 in
      let (header_word, w5) = pci_read_word ports bus device 0 0x0c w4 in
      let header_type = bit_and header_word 0xff in
      let enter = enter_device rounds class subclass vendor id bus device func in
      if vendor == 0xffff
      then done (devices, w1)
      else if not (func == 0)
      then enter (devices, w4)
      else if bit_and header_type 0x80 == 0
      then enter (devices, w5)
      else others (devices, w5) >>= enter

  -- The functions from fn on. They are not 0, so their call runs no loop of its own.
  unfoldable pub functions_loop : (rounds bus device fn left : ℕ) → Tree → Outcome Tree
  functions_loop rounds bus device fn zero t = done t
  functions_loop rounds bus device fn (suc k) t =
      visit_function rounds done bus device fn t >>= functions_loop rounds bus device (fn + 1) k

  unfoldable pub device_from_pci : (rounds bus device func : ℕ) → Tree → Outcome Tree
  device_from_pci rounds bus device func =
      visit_function rounds (functions_loop rounds bus device 1 7) bus device func

  unfoldable pub slots_loop : (rounds bus device left : ℕ) → Tree → Outcome Tree
  slots_loop rounds bus device zero t = done t
  slots_loop rounds bus device (suc k) t =
      device_from_pci rounds bus device 0 t >>= slots_loop rounds bus (device + 1) k

  unfoldable pub buses_loop : (rounds bus left : ℕ) → Tree → Outcome Tree
  buses_loop rounds bus zero t = done t
  buses_loop rounds bus (suc k) t = slots_loop rounds bus 0 32 t >>= buses_loop rounds (bus + 1) k

  unfoldable pub init_devices : (rounds : ℕ) → Tree → Outcome Tree
  init_devices rounds = buses_loop rounds 0 256
