-- ===== src/Drivers/Ehci/Words.antt =====
-- A memory of words for the EHCI driver, and what its loops and `fill_qh` store there.
use wolf_os.Base.{
  ℕ, zero, suc, ◌+◌, ◌-◌, ◌*◌, ◌%◌, ◌≤◌, ◌<◌, ◌≡◌, refl, ◌∙◌, inl, inr, Bool, true, false, ◌&&◌,
  bit_or, ltb, leb, ◌==◌, if◌then◌else◌, Bool-cases, arith, ◌≢◌,
}
use wolf_os.Drivers.Ehci.{EhciKernel}
use wolf_os.Drivers.Ehci.Bind.{fill_qh, bufptr_loop, frames_loop}

-- A memory of words, and an allocator that, when its result is not 0, has handed out words that nobody
-- held, at an address that is a multiple of 4 if the alignment asked for is. Words that are held it keeps.
pub record IsMemory {World : Type 0} (kernel : EhciKernel World) : Type 0 where
  pub word : World → (address : ℕ) → ℕ
  pub held : World → (address : ℕ) → Bool
  pub stores32 :
      (a v b : ℕ) (w : World)
      → a % 4 ≡ 0
      → b % 4 ≡ 0
      → word (kernel.store32 a v w) b ≡ (if b == a then v else word w b)
  pub stores16 :
      (a v b : ℕ) (w : World)
      → a % 4 ≡ 0
      → b % 4 ≡ 0
      → (b == a) ≡ false
      → word (kernel.store16 a v w) b ≡ word w b
  pub held32 : (a v b : ℕ) (w : World) → held (kernel.store32 a v w) b ≡ held w b
  pub held16 : (a v b : ℕ) (w : World) → held (kernel.store16 a v w) b ≡ held w b
  pub aligned : (n align : ℕ) (w : World) → align % 4 ≡ 0 → (kernel.kamalloc n align w).0 % 4 ≡ 0
  pub new :
      (n align b : ℕ) (w : World)
      → (kernel.kamalloc n align w).0 ≢ 0
      → (kernel.kamalloc n align w).0 ≤ b
      → b < (kernel.kamalloc n align w).0 + n
      → (held w b ≡ false) × (held ((kernel.kamalloc n align w).1) b ≡ true)
  pub keeps :
      (n align b : ℕ) (w : World)
      → held w b ≡ true
      → (held ((kernel.kamalloc n align w).1) b ≡ true)
        × (word ((kernel.kamalloc n align w).1) b ≡ word w b)

module _ {World : Type 0} (kernel : EhciKernel World) (memory : IsMemory kernel) where
  open kernel use {store32, store16, kamalloc}
  open memory use {word, held, stores32, stores16, held32, held16}

  bufptr_loop-word :
      (qh i k b : ℕ) (w : World)
      → qh % 4 ≡ 0
      → b % 4 ≡ 0
      → word (bufptr_loop kernel qh i k w) b
        ≡ (if leb (qh + 28 + 4 * i) b && ltb b (qh + 28 + 4 * (i + k)) then 0 else word w b)
  unfolding bufptr_loop
  bufptr_loop-word qh i zero b w aq ab = ground arith
  bufptr_loop-word qh i (suc k) b w aq ab = ground (
    arith,
    bufptr_loop-word qh (i + 1) k b (store32 (qh + 28 + 4 * i) 0 w) aq ab,
    stores32 (qh + 28 + 4 * i) 0 b w (omega arith) ab,
  )

  bufptr_loop-held : (qh i k b : ℕ) (w : World) → held (bufptr_loop kernel qh i k w) b ≡ held w b
  unfolding bufptr_loop
  bufptr_loop-held qh i zero b w = refl
  bufptr_loop-held qh i (suc k) b w =
      bufptr_loop-held qh (i + 1) k b (store32 (qh + 28 + 4 * i) 0 w)
      ∙ held32 (qh + 28 + 4 * i) 0 b w

  pub frames_loop-word :
      (frames qh i k b : ℕ) (w : World)
      → frames % 4 ≡ 0
      → b % 4 ≡ 0
      → word (frames_loop kernel frames qh i k w) b
        ≡ (if leb (frames + 4 * i) b && ltb b (frames + 4 * (i + k)) then bit_or 1 qh else word w b)
  unfolding frames_loop
  frames_loop-word frames qh i zero b w af ab = ground arith
  frames_loop-word frames qh i (suc k) b w af ab = ground (
    arith,
    frames_loop-word frames qh (i + 1) k b (store32 (frames + 4 * i) (bit_or 1 qh) w) af ab,
    stores32 (frames + 4 * i) (bit_or 1 qh) b w (omega arith) ab,
  )

  -- The word of a queue head at an offset; the one at 8 is left open.
  abbrev pub qh_word : (qhlp end_char offset : ℕ) → ℕ
  qh_word qhlp end_char offset =
      if offset == 0 then qhlp else if offset == 4 then end_char else if offset == 16 then 1 else 0

  pub fill_qh-word :
      (qh qhlp end_char b : ℕ) (w : World)
      → qh % 4 ≡ 0
      → b % 4 ≡ 0
      → (b == qh + 8) ≡ false
      → word (fill_qh kernel qh qhlp end_char w) b
        ≡ (if leb qh b && ltb b (qh + 48) then qh_word qhlp end_char (b - qh) else word w b)
  unfolding fill_qh
  fill_qh-word qh qhlp end_char b w aq ab other =
      let w1 = store32 (qh + 4) end_char (store32 qh qhlp w) in
      let w2 = store16 (qh + 8) 0 w1 in
      let w3 = store32 (qh + 12) 0 w2 in
      let w4 = store32 (qh + 16) 1 w3 in
      let w5 = store32 (qh + 20) 0 w4 in
      let e0 = stores32 qh qhlp b w aq ab in
      let e1 = stores32 (qh + 4) end_char b (store32 qh qhlp w) (omega arith) ab in
      let e2 = stores16 (qh + 8) 0 b w1 (omega arith) ab other in
      let e3 = stores32 (qh + 12) 0 b w2 (omega arith) ab in
      let e4 = stores32 (qh + 16) 1 b w3 (omega arith) ab in
      let e5 = stores32 (qh + 20) 0 b w4 (omega arith) ab in
      let e6 = stores32 (qh + 24) 0 b w5 (omega arith) ab in
      let e7 = bufptr_loop-word qh 0 5 b (store32 (qh + 24) 0 w5) aq ab in
      rw (e7, e6, e5, e4, e3, e2, e1, e0) (ground arith)

  pub fill_qh-held :
      (qh qhlp end_char b : ℕ) (w : World) → held (fill_qh kernel qh qhlp end_char w) b ≡ held w b
  unfolding fill_qh
  fill_qh-held qh qhlp end_char b w =
      rw
        (
          bufptr_loop-held qh 0 5 b _,
          held32 (qh + 24) 0 b _,
          held32 (qh + 20) 0 b _,
          held32 (qh + 16) 1 b _,
          held32 (qh + 12) 0 b _,
          held16 (qh + 8) 0 b _,
          held32 (qh + 4) end_char b _,
        )
        (held32 qh qhlp b w)

  -- A queue head with one link and one word of characteristics, and no transfer.
  abbrev pub IsQueueHead : World → (qh qhlp end_char : ℕ) → Type 0
  IsQueueHead w qh qhlp end_char =
      (word w qh ≡ qhlp)
      × (word w (qh + 4) ≡ end_char)
      × (word w (qh + 12) ≡ 0)
      × (word w (qh + 16) ≡ 1)
      × (word w (qh + 20) ≡ 0)
      × (word w (qh + 24) ≡ 0)
      × ((i : ℕ) → i < 5 → word w (qh + (28 + 4 * i)) ≡ 0)

  -- What is held is not in what is handed out next.
  pub not_new :
      (n align b : ℕ) (w : World)
      → (kamalloc n align w).0 ≢ 0
      → held w b ≡ true
      → (leb (kamalloc n align w).0 b && ltb b ((kamalloc n align w).0 + n)) ≡ false
  not_new n align b w given h =
      elim (Bool-cases (leb (kamalloc n align w).0 b && ltb b ((kamalloc n align w).0 + n))) [
        | inr e ↦ e
        | inl e ↦
            let (free, taken) = memory.new n align b w given (ground arith) (ground arith) in
            absurd (ground (arith, h, free))
      ]
