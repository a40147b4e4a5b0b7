-- ===== src/Interrupts.antt =====
-- interrupts/: the descriptor table, the interrupt controllers and the timer as they are set up, and
-- the handlers. A write to a port is a pair of the port and the byte; a routine is modelled by the
-- writes that it makes, in order.
pub mod Names
pub mod Stubs
pub mod Gates
pub mod Dispatch
pub mod Pic
pub mod Tests
use wolf_os.Base.{
  ℕ, ◌+◌, ◌*◌, ◌/◌, ◌%◌, ◌^◌, bit_and, List, [], ◌∷◌, ◌++◌, Option, none, some, ltb, ◌==◌,
  if◌then◌else◌, get_elem?,
}
use wolf_os.Base.Words.{u8, u16, u32, u64, ◌>>◌}
use wolf_os.Console.Numbers.{Text}
use wolf_os.Console.Printf.{Arg, str, int, printf}
use wolf_os.Interrupts.Names.{intnames}
use wolf_os.Interrupts.Stubs.{Label, Handler, generic, timer, keyboard, Stub}
use wolf_os.Interrupts.Gates.{Gate, gates}

-- `struct IDTEntry`, packed; `zero` is the reserved byte
pub record IdtEntry : Type 0 where
  pub offset_low : ℕ
  pub selector : ℕ
  pub reserved : ℕ
  pub type_attr : ℕ
  pub offset_high : ℕ

abbrev pub Idt : Type 0
Idt = ℕ → IdtEntry

unfoldable pub set_idt_entry : (n handler sel type_attr : ℕ) → Idt → Idt
set_idt_entry n handler sel type_attr idt k =
    let addr = u32 handler in
    if k == n
    then record {
      offset_low = u16 (bit_and addr 0xffff);
      selector = sel;
      reserved = 0;
      type_attr = type_attr;
      offset_high = u16 (bit_and (addr >> 16) 0xffff);
    }
    else idt k

module _ (address : Label → ℕ) where
  unfoldable pub set_gates : List Gate → Idt → Idt
  set_gates [] idt = idt
  set_gates (g ∷ gs) idt = set_gates gs (set_idt_entry g.number (address g.label) 0x08 0x8e idt)

  -- `address` is where the linker puts a stub.
  unfoldable pub init_idt_entries : Idt → Idt
  init_idt_entries = set_gates gates

abbrev pub Writes : Type 0
Writes = List (ℕ × ℕ)

unfoldable pub pic_remap : Writes
pic_remap =
    (0x20, 0x11)
    ∷ (0xa0, 0x11)
    ∷ (0x21, 0x20)
    ∷ (0xa1, 0x28)
    ∷ (0x21, 0x04)
    ∷ (0xa1, 0x02)
    ∷ (0x21, 0x01)
    ∷ (0xa1, 0x01)
    ∷ (0x21, 0xff)
    ∷ (0xa1, 0xff)
    ∷ []

unfoldable pub pic_restore : (master_mask slave_mask : ℕ) → Writes
pic_restore master_mask slave_mask =
    (0x20, 0x11)
    ∷ (0xa0, 0x11)
    ∷ (0x21, 0x08)
    ∷ (0xa1, 0x70)
    ∷ (0x21, 0x04)
    ∷ (0xa1, 0x02)
    ∷ (0x21, 0x01)
    ∷ (0xa1, 0x01)
    ∷ (0x21, master_mask)
    ∷ (0xa1, slave_mask)
    ∷ []

-- `none` is the division by 0.
unfoldable pub pit_set_frequency : (freq : ℕ) → Option Writes
pit_set_frequency freq =
    let divisor = u16 (1_193_182 / freq) in
    if freq == 0
    then none
    else some (
        (0x43, 0x36)
        ∷ (0x40, u8 (bit_and divisor 0xff))
        ∷ (0x40, u8 (bit_and (divisor >> 8) 0xff))
        ∷ [])

-- The writes of `init_idt_and_keyboard`, and the table that `lidt` then loads.
unfoldable pub init_idt_and_keyboard : (address : Label → ℕ) → Idt → Option Writes × Idt
init_idt_and_keyboard address idt = (
  elim (pit_set_frequency 1000) [
    | none ↦ none
    | some pit ↦ some (pic_remap ++ pit ++ (0x21, 0xfc) ∷ (0xa1, 0xff) ∷ [])
  ],
  init_idt_entries address idt,
)

-- The state that the handlers change: the ticks, the ports, and the text on the screen (`none` after
-- a printer ran out of rounds).
pub record Machine : Type 0 where
  pub ticks : ℕ
  pub writes : Writes
  pub screen : Option Text

-- A handler returns, stays in its endless loop behind `hlt`, or reads past the end of an array.
pub data Outcome : Type 0 where
  returned : Machine → Outcome
  halted : Machine → Outcome
  fault : Outcome

abbrev append_text : Option Text → Option Text → Option Text
append_text none o = none
append_text (some t) none = none
append_text (some t) (some out) = some (t ++ out)

-- "\n\xFC[ GENERIC INTERRUPT ]\n\xFBName:\xFF %s\n\xFBCode:\xFF %u\xF7\n"
abbrev generic_format : Text
generic_format =
    10 ∷ 252 ∷ b'[' ∷ b' ' ∷ b'G' ∷ b'E' ∷ b'N' ∷ b'E' ∷ b'R' ∷ b'I' ∷ b'C' ∷ b' ' ∷ b'I' ∷ b'N'
    ∷ b'T' ∷ b'E' ∷ b'R' ∷ b'R' ∷ b'U' ∷ b'P' ∷ b'T' ∷ b' ' ∷ b']' ∷ 10 ∷ 251 ∷ b'N' ∷ b'a' ∷ b'm'
    ∷ b'e' ∷ b':' ∷ 255 ∷ b' ' ∷ b'%' ∷ b's' ∷ 10 ∷ 251 ∷ b'C' ∷ b'o' ∷ b'd' ∷ b'e' ∷ b':' ∷ 255
    ∷ b' ' ∷ b'%' ∷ b'u' ∷ 247 ∷ 10 ∷ []

-- "Keyboard interrupt: %u\n"
abbrev keyboard_format : Text
keyboard_format =
    b'K' ∷ b'e' ∷ b'y' ∷ b'b' ∷ b'o' ∷ b'a' ∷ b'r' ∷ b'd' ∷ b' ' ∷ b'i' ∷ b'n' ∷ b't' ∷ b'e' ∷ b'r'
    ∷ b'r' ∷ b'u' ∷ b'p' ∷ b't' ∷ b':' ∷ b' ' ∷ b'%' ∷ b'u' ∷ 10 ∷ []

abbrev shows : Text → List Arg → Machine → Machine
shows fmt args s = record s { screen = append_text s.screen (printf fmt args) }

-- The end of the interrupt is sent to both controllers.
abbrev pub send_eoi : Machine → Machine
send_eoi s = record s { writes = s.writes ++ (0x20, 0x20) ∷ (0xa0, 0x20) ∷ [] }

-- `scancode` is what `inb(0x60)` gives.
unfoldable pub keyboard_handler : (scancode interrupt_num : ℕ) → Machine → Outcome
keyboard_handler scancode interrupt_num s =
    returned (send_eoi (shows keyboard_format (int scancode ∷ []) s))

unfoldable pub timer_handler : (interrupt_num : ℕ) → Machine → Outcome
timer_handler interrupt_num s = returned (send_eoi (record s { ticks = u64 (s.ticks + 1) }))

unfoldable pub generic_handler : (interrupt_num : ℕ) → Machine → Outcome
generic_handler interrupt_num s = elim (get_elem? intnames interrupt_num) [
  | none ↦ fault
  | some name ↦
      let shown = shows generic_format (str (some name) ∷ int interrupt_num ∷ []) s in
      if ltb interrupt_num 32 then halted shown else returned (send_eoi shown)
]

-- What the code of a stub does between saving and restoring the registers.
unfoldable pub run_stub : (scancode : ℕ) → Stub → Machine → Outcome
run_stub scancode s = elim s.target [
  | generic ↦ generic_handler s.int_no
  | timer ↦ timer_handler s.int_no
  | keyboard ↦ keyboard_handler scancode s.int_no
]
