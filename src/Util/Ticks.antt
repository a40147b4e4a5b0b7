-- ===== src/Util/Ticks.antt =====
-- util/earlyutil.c, `wait`, with the handlers of interrupts/idt.c, which count `ticks`.
use wolf_os.Base.{
  ℕ, ◌+◌, ◌-◌, ◌^◌, ◌≤◌, ◌<◌, ◌≡◌, refl, ap, ◌∙◌, inl, inr, true, false, List, [], ◌∷◌, Option,
  none, some, ltb, ◌==◌, if◌then◌else◌, Bool-cases, arith, subst,
}
use wolf_os.Base.Words.{u32, u64}
use wolf_os.Interrupts.{Machine, Outcome, returned, halted, fault, run_stub}
use wolf_os.Interrupts.Stubs.{Stub, stubs}
use wolf_os.Interrupts.Dispatch.{label_of, find_stub, Behaves, run_stub-Behaves}

abbrev pub run_found : (scancode : ℕ) → Machine → Option Stub → Outcome
run_found scancode s none = fault
run_found scancode s (some st) = run_stub scancode st s

-- An interrupt comes: the stub at its gate runs.
unfoldable pub interrupt : (scancode n : ℕ) → Machine → Outcome
interrupt scancode n s = run_found scancode s (find_stub (label_of n) stubs)

-- `(uint32_t)(ticks - start)`, where `start` is cut to 32 bits.
abbrev pub elapsed : (ticks start : ℕ) → ℕ
elapsed ticks start = u32 (u64 (ticks + 2 ^ 64 - start))

-- The interrupts between a test of the loop and the next one, in their order. There is one at least:
-- `hlt` lasts until one comes. Those that come between the test and `hlt` are handled before it.
pub record Halt : Type 0 where
  pub earliest : ℕ
  pub later : List ℕ

-- What an interrupt leaves of the wait.
abbrev pub resume : (Machine → Option Outcome) → Outcome → Option Outcome
resume next (returned t) = next t
resume next (halted t) = some (halted t)
resume next fault = some fault

unfoldable pub handle_all :
    (scancode : ℕ) (interrupts : List ℕ) → (Machine → Option Outcome) → Machine → Option Outcome
handle_all scancode [] next s = next s
handle_all scancode (n ∷ ns) next s = resume (handle_all scancode ns next) (interrupt scancode n s)

-- none is a wait that goes on behind the last of the interrupts.
unfoldable pub wait_loop : (scancode start ms : ℕ) (halts : List Halt) → Machine → Option Outcome
wait_loop scancode start ms [] s =
    if ltb (elapsed s.ticks start) ms then none else some (returned s)
wait_loop scancode start ms (h ∷ hs) s =
    let rest = handle_all scancode (h.earliest ∷ h.later) (wait_loop scancode start ms hs) s in
    if ltb (elapsed s.ticks start) ms then rest else some (returned s)

unfoldable pub wait : (scancode ms : ℕ) (halts : List Halt) → Machine → Option Outcome
wait scancode ms halts s = wait_loop scancode (u32 s.ticks) ms halts s

-- The interrupts of the timer among those that come.
abbrev pub timers : (interrupts : List ℕ) → ℕ
timers [] = 0
timers (n ∷ ns) = (if n == 32 then 1 else 0) + timers ns

abbrev pub all_timers : List Halt → ℕ
all_timers [] = 0
all_timers (h ∷ hs) = timers (h.earliest ∷ h.later) + all_timers hs

-- All come from the interrupt controllers.
abbrev pub AreLines : (interrupts : List ℕ) → Type 0
AreLines [] = Unit
AreLines (n ∷ ns) = (32 ≤ n) × (n < 48) × AreLines ns

-- So they do between all tests, and at most `most` of them are the timer's between two.
abbrev pub AreHalts : (most : ℕ) → List Halt → Type 0
AreHalts most [] = Unit
AreHalts most (h ∷ hs) =
    AreLines (h.earliest ∷ h.later) × (timers (h.earliest ∷ h.later) ≤ most) × AreHalts most hs

elapsed-after :
    (first k ticks : ℕ) → k < 2 ^ 32 → ticks ≡ u64 (first + k) → elapsed ticks (u32 first) ≡ k
elapsed-after first k ticks small at = omega arith

module _ (scancode first ms most : ℕ) (some_most : 0 < most) (small : ms + most ≤ 2 ^ 32) where
  -- The wait ends between the tick number `first + ms` and `most` ticks later.
  abbrev EndsAt : Option Outcome → Type 0
  EndsAt outcome =
      (t : Machine) × (k : ℕ) × (outcome ≡ some (returned t))
      × (t.ticks ≡ u64 (first + k))
      × (ms ≤ k)
      × (k < ms + most)

  -- Once k ticks are counted.
  abbrev EndsFrom : (Machine → Option Outcome) → (k : ℕ) → Type 0
  EndsFrom next k = (s : Machine) → s.ticks ≡ u64 (first + k) → EndsAt (next s)

  resume-EndsAt :
      (n k : ℕ) (next : Machine → Option Outcome) (s : Machine) (o : Outcome)
      → 32 ≤ n
      → n < 48
      → s.ticks ≡ u64 (first + k)
      → Behaves n s o
      → EndsFrom next (k + (if n == 32 then 1 else 0))
      → EndsAt (resume next o)
  unfolding Behaves
  resume-EndsAt n k next s (returned t) lo hi at (lo', hi', ticks, writes) ends =
      ends t (elim (Bool-cases (n == 32)) [
        | inl e ↦ ground (arith, ticks)
        | inr e ↦ ground (arith, ticks)
      ])
  resume-EndsAt n k next s (halted t) lo hi at (lt, ticks, writes) ends = absurd (omega arith)
  resume-EndsAt n k next s fault lo hi at ge ends = absurd (omega arith)

  handle_all-EndsAt :
      (ns : List ℕ) (k : ℕ) (next : Machine → Option Outcome)
      → AreLines ns
      → EndsFrom next (k + timers ns)
      → EndsFrom (handle_all scancode ns next) k
  unfolding handle_all interrupt
  handle_all-EndsAt [] k next lines ends s at =
      ends s (at ∙ ap (λ j. u64 (first + j)) (omega arith))
  handle_all-EndsAt (n ∷ ns) k next (lo, hi, lines) ends s at =
      let (st, found, behaves) = run_stub-Behaves scancode n s (omega arith) in
      let sum : k + timers (n ∷ ns) ≡ k + (if n == 32 then 1 else 0) + timers ns = omega arith in
      rw found (
        resume-EndsAt n k (handle_all scancode ns next) s (run_stub scancode st s) lo hi at behaves
          (handle_all-EndsAt ns (k + (if n == 32 then 1 else 0)) next lines
            (subst (EndsFrom next) sum ends)))

  wait_loop-EndsAt :
      (halts : List Halt) (k : ℕ)
      → k < ms + most
      → AreHalts most halts
      → ms ≤ k + all_timers halts
      → EndsFrom (wait_loop scancode (u32 first) ms halts) k
  unfolding wait_loop
  wait_loop-EndsAt [] k le lines enough s at =
      let over : ltb (elapsed s.ticks (u32 first)) ms ≡ false =
        rw (elapsed-after first k s.ticks (omega arith) at) (ground arith) in
      rw over (s, k, refl, at, omega arith, le)
  wait_loop-EndsAt (h ∷ hs) k le (lines, few, later) enough s at =
      let count = elapsed-after first k s.ticks (omega arith) at in
      elim (Bool-cases (ltb k ms)) [
        | inr e ↦
            let over : ltb (elapsed s.ticks (u32 first)) ms ≡ false = rw count e in
            rw over (s, k, refl, at, ground arith, le)
        | inl e ↦
            let waits : ltb (elapsed s.ticks (u32 first)) ms ≡ true = rw count e in
            rw waits (
              handle_all-EndsAt (h.earliest ∷ h.later) k (wait_loop scancode (u32 first) ms hs)
                lines
                (wait_loop-EndsAt hs (k + timers (h.earliest ∷ h.later)) (ground arith) later
                  (omega arith))
                s at)
      ]

-- Let only interrupts of the controllers come, at least `ms` of them the timer's, and between two tests
-- of the loop at most `most` of the timer's, where `ms + most` is not above 2 ^ 32. Then `wait` returns,
-- after at least `ms` ticks and less than `ms + most`, whether or not the 32 bits that it looks at wrap
-- around.
pub wait-counts :
    (scancode ms most : ℕ) (halts : List Halt) (s : Machine)
    → 0 < most
    → ms + most ≤ 2 ^ 32
    → s.ticks < 2 ^ 64
    → AreHalts most halts
    → ms ≤ all_timers halts
    → (t : Machine) × (k : ℕ) × (wait scancode ms halts s ≡ some (returned t))
      × (t.ticks ≡ u64 (s.ticks + k))
      × (ms ≤ k)
      × (k < ms + most)
unfolding wait
wait-counts scancode ms most halts s pos small fits lines enough =
    wait_loop-EndsAt scancode s.ticks ms most pos small halts 0 (omega arith) lines (omega arith) s
      (omega arith)
