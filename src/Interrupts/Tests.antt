-- ===== src/Interrupts/Tests.antt =====
-- interrupts/: the theorems at an input that meets their conditions.
use wolf_os.Base.{ℕ, ◌+◌, ◌*◌, ◌≡◌, [], ◌∷◌, some, none, map, replicate, arith}
use wolf_os.Interrupts.{Idt, Writes, Machine, init_idt_entries, init_idt_and_keyboard, run_stub}
use wolf_os.Interrupts.Stubs.{Label, isr, irq, Stub, stub, stubs}
use wolf_os.Interrupts.Dispatch.{
  label_of, handler_of, find_stub, GoesTo, Behaves, init_idt_entries-GoesTo, run_stub-Behaves,
}
use wolf_os.Interrupts.Pic.{
  Chip, Pics, ready, delivers, outs, lines, init_idt_and_keyboard-delivers,
}

abbrev address : Label → ℕ
address (isr n) = 0x10_0000 + 32 * n
address (irq n) = 0x11_0000 + 32 * n

abbrev empty : Idt
empty n = record { offset_low = 0; selector = 0; reserved = 0; type_attr = 0; offset_high = 0 }

init_idt_entries-GoesTo_example :
    (l : Label) × GoesTo (init_idt_entries address empty 33) (address l)
    × (find_stub l stubs ≡ some (stub l (handler_of 33) 33))
init_idt_entries-GoesTo_example = init_idt_entries-GoesTo address empty 33 (omega arith)

abbrev idle : Machine
idle = record { ticks = 41; writes = []; screen = some [] }

run_stub-Behaves_example :
    (st : Stub) × (find_stub (label_of 32) stubs ≡ some st) × Behaves 32 idle (run_stub 0 st idle)
run_stub-Behaves_example = run_stub-Behaves 0 32 idle (omega arith)

abbrev fresh : Chip
fresh = record { stage = ready; vector = 8; cascade = 4; mode = 1; mask = 0 }

abbrev at_start : Pics
at_start = record { master = fresh; slave = fresh }

init_idt_and_keyboard-delivers_example :
    (w : Writes) × ((init_idt_and_keyboard address empty).0 ≡ some w)
    × (map (delivers (outs w at_start)) lines ≡ some 32 ∷ some 33 ∷ replicate 14 none)
init_idt_and_keyboard-delivers_example = init_idt_and_keyboard-delivers address empty at_start
