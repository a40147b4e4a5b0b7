-- ===== src/Interrupts/Dispatch.antt =====
-- Where an interrupt goes: the gate of its number, the stub that the gate names, and the handler.
use wolf_os.Base.{
  ℕ, zero, suc, ◌+◌, ◌*◌, ◌-◌, ◌/◌, ◌^◌, ◌≤◌, ◌<◌, ◌≡◌, refl, ap, ◌∙◌, Bool, true, false, List, [],
  ◌∷◌, ◌++◌, Option, none, some, ltb, ◌==◌, if◌then◌else◌, arith, Bool-cases, inl, inr,
  get_elem?-some, get_elem?-none,
}
use wolf_os.Base.Words.{u32, u64}
use wolf_os.Base.Bits.{bit_and_mask}
use wolf_os.Interrupts.{
  IdtEntry, Idt, set_idt_entry, set_gates, init_idt_entries, Machine, Outcome, returned, halted,
  fault, keyboard_handler, timer_handler, generic_handler, run_stub,
}
use wolf_os.Interrupts.Names.{intnames}
use wolf_os.Interrupts.Stubs.{
  Label, isr, irq, Handler, generic, timer, keyboard, Stub, stub, stubs, exception_stubs, irq_stubs,
  unused_stubs_low, unused_stubs_high,
}
use wolf_os.Interrupts.Gates.{
  gate, gates, exception_gates, irq_gates, unused_gates_low, unused_gates_high,
}

-- The plan of the vectors: 32 exceptions, 16 lines of the controllers, and the rest.
abbrev pub label_of : ℕ → Label
label_of n = if ltb n 32 then isr n else if ltb n 48 then irq (n - 32) else isr n

abbrev pub handler_of : ℕ → Handler
handler_of n = if n == 32 then timer else if n == 33 then keyboard else generic

numbered : {A : Type 0} → (ℕ → A) → (start count : ℕ) → List A
numbered f start zero = []
numbered f start (suc c) = f start ∷ numbered f (suc start) c

gates-numbered : gates ≡ numbered (λ n. gate n (label_of n)) 0 256
unfolding exception_gates irq_gates unused_gates_low unused_gates_high numbered
gates-numbered = refl

stubs-numbered : stubs ≡ numbered (λ n. stub (label_of n) (handler_of n) n) 0 256
unfolding exception_stubs irq_stubs unused_stubs_low unused_stubs_high numbered
stubs-numbered = refl

abbrev same_label : Label → Label → Bool
same_label (isr a) (isr b) = a == b
same_label (isr a) (irq b) = false
same_label (irq a) (isr b) = false
same_label (irq a) (irq b) = a == b

-- The code at a label.
unfoldable pub find_stub : Label → List Stub → Option Stub
find_stub l [] = none
find_stub l (s ∷ rest) = if same_label s.label l then some s else find_stub l rest

same_label-label_of : (n k : ℕ) → same_label (label_of n) (label_of k) ≡ (n == k)
same_label-label_of n k = ground arith

find_stub-numbered :
    (start count n : ℕ)
    → start ≤ n
    → n < start + count
    → find_stub (label_of n) (numbered (λ k. stub (label_of k) (handler_of k) k) start count)
      ≡ some (stub (label_of n) (handler_of n) n)
unfolding numbered find_stub
find_stub-numbered start zero n lo hi = absurd (omega arith)
find_stub-numbered start (suc c) n lo hi = elim (Bool-cases (start == n)) [
  | inl e ↦
      let same : start ≡ n = ground arith in
      rw (same_label-label_of start n, e) (ap (λ k. some (stub (label_of k) (handler_of k) k)) same)
  | inr ne ↦
      rw (same_label-label_of start n, ne)
        (find_stub-numbered (suc start) c n (ground arith) (omega arith))
]

find_stub-label_of :
    (n : ℕ) → n < 256 → find_stub (label_of n) stubs ≡ some (stub (label_of n) (handler_of n) n)
find_stub-label_of n h = rw stubs-numbered (find_stub-numbered 0 256 n (omega arith) h)

-- An entry that is an interrupt gate of the kernel's code segment at an address.
abbrev pub GoesTo : IdtEntry → (address : ℕ) → Type 0
GoesTo e a =
    (e.offset_low + e.offset_high * 2 ^ 16 ≡ u32 a)
    × (e.selector ≡ 0x08)
    × (e.reserved ≡ 0)
    × (e.type_attr ≡ 0x8e)

set_idt_entry-GoesTo : (n a : ℕ) (idt : Idt) → GoesTo (set_idt_entry n a 0x08 0x8e idt n) a
unfolding set_idt_entry
set_idt_entry-GoesTo n a idt =
    let here : (n == n) ≡ true = ground arith in
    rw here
      (omega (arith, bit_and_mask 16 (u32 a), bit_and_mask 16 (u32 a / 2 ^ 16)), refl, refl, refl)

set_idt_entry-other :
    (k n a : ℕ) (idt : Idt) → (k == n) ≡ false → set_idt_entry n a 0x08 0x8e idt k ≡ idt k
unfolding set_idt_entry
set_idt_entry-other k n a idt ne = rw ne

module _ (address : Label → ℕ) where
  set_gates-below :
      (start count n : ℕ) (idt : Idt)
      → n < start
      → set_gates address (numbered (λ k. gate k (label_of k)) start count) idt n ≡ idt n
  unfolding numbered set_gates
  set_gates-below start zero n idt h = refl
  set_gates-below start (suc c) n idt h =
      set_gates-below (suc start) c n (set_idt_entry start (address (label_of start)) 0x08 0x8e idt)
        (omega arith)
      ∙ set_idt_entry-other n start (address (label_of start)) idt (ground arith)

  set_gates-GoesTo :
      (start count n : ℕ) (idt : Idt)
      → start ≤ n
      → n < start + count
      → GoesTo
          (set_gates address (numbered (λ k. gate k (label_of k)) start count) idt n)
          (address (label_of n))
  unfolding numbered set_gates
  set_gates-GoesTo start zero n idt lo hi = absurd (omega arith)
  set_gates-GoesTo start (suc c) n idt lo hi = elim (Bool-cases (start == n)) [
    | inl e ↦
        let same : start ≡ n = ground arith in
        rw
          (
            same,
            set_gates-below (suc n) c n (set_idt_entry n (address (label_of n)) 0x08 0x8e idt)
                (omega arith),
          )
          (set_idt_entry-GoesTo n (address (label_of n)) idt)
    | inr ne ↦
        set_gates-GoesTo (suc start) c n
          (set_idt_entry start (address (label_of start)) 0x08 0x8e idt) (ground arith)
          (omega arith)
  ]

  -- After `init_idt_entries` the gate of each of the 256 interrupts leads to a stub, by an interrupt
  -- gate of the kernel's code segment, and the code of that stub calls the timer's handler for
  -- number 32, the keyboard's for 33 and the generic one for all others, with the number of the
  -- interrupt.
  pub init_idt_entries-GoesTo :
      (idt : Idt) (n : ℕ)
      → n < 256
      → (l : Label) × GoesTo (init_idt_entries address idt n) (address l)
        × (find_stub l stubs ≡ some (stub l (handler_of n) n))
  unfolding init_idt_entries
  init_idt_entries-GoesTo idt n h = (
    label_of n,
    rw gates-numbered (set_gates-GoesTo 0 256 n idt (omega arith) h),
    find_stub-label_of n h,
  )

-- What an interrupt does to the machine: the end of it is sent to both controllers if it comes from
-- them, only the timer's counts a tick, an exception stops the kernel, and a number of 48 or more
-- makes the generic handler read behind the table of names.
unfoldable pub Behaves : ℕ → Machine → Outcome → Type 0
Behaves n s (returned t) =
    (32 ≤ n)
    × (n < 48)
    × (t.ticks ≡ (if n == 32 then u64 (s.ticks + 1) else s.ticks))
    × (t.writes ≡ (s.writes ++ (0x20, 0x20) ∷ (0xa0, 0x20) ∷ []))
Behaves n s (halted t) = (n < 32) × (t.ticks ≡ s.ticks) × (t.writes ≡ s.writes)
Behaves n s fault = 48 ≤ n

generic_handler-Behaves :
    (n : ℕ) (s : Machine) → (n == 32) ≡ false → Behaves n s (generic_handler n s)
unfolding generic_handler Behaves intnames
generic_handler-Behaves n s ne = elim (Bool-cases (ltb n 48)) [
  | inl lt ↦
      let (name, e) = get_elem?-some intnames n (ground arith) in
      elim (Bool-cases (ltb n 32)) [
        | inl h ↦ rw (e, h) (ground arith, refl, refl)
        | inr h ↦ rw (e, h, ne) (ground arith, ground arith, refl, refl)
      ]
  | inr ge ↦ rw (get_elem?-none intnames n (ground arith)) (ground arith)
]

-- The stub at the gate of each number below 256 behaves as that number asks.
pub run_stub-Behaves :
    (scancode n : ℕ) (s : Machine)
    → n < 256
    → (st : Stub) × (find_stub (label_of n) stubs ≡ some st) × Behaves n s (run_stub scancode st s)
unfolding run_stub Behaves timer_handler keyboard_handler
run_stub-Behaves scancode n s h = (
  stub (label_of n) (handler_of n) n,
  find_stub-label_of n h,
  elim (Bool-cases (n == 32)) [
    | inl e ↦ rw e (ground arith, ground arith, rw e refl, refl)
    | inr ne ↦ elim (Bool-cases (n == 33)) [
      | inl e ↦ rw (ne, e) (ground arith, ground arith, rw ne refl, refl)
      | inr ne' ↦ rw (ne, ne') (generic_handler-Behaves n s ne)
    ]
  ],
)
