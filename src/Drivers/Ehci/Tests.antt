-- ===== src/Drivers/Ehci/Tests.antt =====
-- drivers/USB_EHCI: the theorems on a controller that answers, and on a memory of pages.
use wolf_os.Base.{
  ◌+◌, ◌*◌, ◌/◌, ◌==◌, ltb, arith, ℕ, ◌≡◌, refl, Bool, true, false, [], some, if◌then◌else◌,
}
use wolf_os.Drivers.Pci.{pci_read_byte, pci_read_dword, pci_write_word, pci_read_word}
use wolf_os.Drivers.Ehci.{EhciKernel, await}
use wolf_os.Drivers.Ehci.Bind.{
  bind_device_pci, bind_controller, reset_controller, make_schedules, leave_legacy_mode,
  frames_loop, fill_qh, bufptr_loop, start_controller, ports_loop, power_ports,
}
use wolf_os.Drivers.Ehci.Words.{IsMemory}

-- Each dword of the configuration space tells of an EHCI controller that the kernel holds. The
-- registers read as 0 and as 0x1001 in turns.
abbrev controller : EhciKernel Bool
controller = record {
  ports = record { inl = λ port w. (0x0100_2000, w); outl = λ port v w. w };
  load8 = λ a w. (0x20, w);
  load32 = λ a w. if w then (0, false) else (0x1001, true);
  store16 = λ a v w. w;
  store32 = λ a v w. w;
  wait = λ ms w. w;
  kamalloc = λ n align w. (0x10_0000, w);
}

bind_example : bind_device_pci controller 3 0 4 0 true ≡ some ((0, []), false)
unfolding bind_device_pci pci_read_byte bind_controller reset_controller await pci_write_word
    pci_read_word pci_read_dword make_schedules leave_legacy_mode frames_loop fill_qh bufptr_loop
    start_controller ports_loop power_ports
bind_example = refl

-- The words of a memory, and the first address that nobody holds.
abbrev Heap : Type 0
Heap = (ℕ → ℕ) × ℕ

abbrev put : (address value : ℕ) → Heap → Heap
put a v (m, free) = (λ b. if b == a then v else m b, free)

abbrev next_page : (free : ℕ) → ℕ
next_page free = (free / 4096 + 1) * 4096

abbrev paged : EhciKernel Heap
paged = record {
  ports = record { inl = λ port w. (0, w); outl = λ port v w. w };
  load8 = λ a w. (w.0 a, w);
  load32 = λ a w. (w.0 a, w);
  store16 = put;
  store32 = put;
  wait = λ ms w. w;
  kamalloc = λ n align w. (next_page (w.1), (w.0, next_page (w.1) + n));
}

abbrev paged_memory : IsMemory paged
paged_memory = record {
  word = λ w b. w.0 b;
  held = λ w b. ltb b (w.1);
  stores32 = λ a v b w aa ab. refl;
  stores16 = λ a v b w aa ab other. rw other refl;
  held32 = λ a v b w. refl;
  held16 = λ a v b w. refl;
  aligned = λ n align w h. omega arith;
  new = λ n align b w given lo hi. (ground arith, ground arith);
  keeps = λ n align b w h. (ground arith, refl);
}
