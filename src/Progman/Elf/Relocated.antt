-- ===== src/Progman/Elf/Relocated.antt =====
-- What `process_relocations` leaves in the image.
use wolf_os.Base.{
  ℕ, zero, suc, ◌+◌, ◌-◌, ◌/◌, ◌≤◌, ◌<◌, ◌≡◌, ◌≢◌, refl, ap, sym, subst, ◌∙◌, ◌⊎◌, inl, inr, Bool,
  true, false, ◌==◌, if◌then◌else◌, Bool-cases, arith,
}
use wolf_os.Base.Words.{u32, add32}
use wolf_os.Base.Machine.{Memory, read32, write32}
use wolf_os.Progman.Elf.{section_at}
use wolf_os.Progman.Elf.Symbols.{KernelFunction, sizeof_rel}
use wolf_os.Progman.Elf.Relocate.{
  Relocation, relocation, is_refused, apply_relocation, relocation_loop, process_relocations,
}
use wolf_os.Progman.Elf.Format
use wolf_os.Progman.Elf.Format.{
  Apart, value_of, apply_relocation-value, read32-same, write32-other, write32-read32,
  value_of-write32,
}

module _ (address_of : KernelFunction → ℕ) (image loadedimg dynsym_sec : ℕ) where
  -- At the first entry that is refused, as it is read when its turn comes, the loop ends.
  loop-stops :
      (dynstr rels k n i : ℕ) (m : Memory)
      → let loop = relocation_loop address_of image loadedimg dynsym_sec dynstr rels in
        let before = loop i k m in
        before.0 ≡ 0
        → is_refused
            (relocation address_of image loadedimg dynsym_sec (before.1) dynstr rels (i + k))
          ≡ true
        → loop i (k + suc n) m ≡ (1, before.1)
  unfolding relocation_loop
  loop-stops dynstr rels zero n i m ok refused =
      let r = relocation address_of image loadedimg dynsym_sec m dynstr rels i in
      let here : is_refused r ≡ true =
        subst
          (λ x.
            is_refused (relocation address_of image loadedimg dynsym_sec m dynstr rels x) ≡ true)
          (omega arith) refused in
      ap (λ x. relocation_loop address_of image loadedimg dynsym_sec dynstr rels i x m) {y = suc n}
        (omega arith)
      ∙ ap
          (λ c.
            if c
            then (1, m)
            else relocation_loop address_of image loadedimg dynsym_sec dynstr rels (i + 1) n
                (apply_relocation loadedimg r m))
          here
  loop-stops dynstr rels (suc k) n i m ok refused =
      let r = relocation address_of image loadedimg dynsym_sec m dynstr rels i in
      let next = apply_relocation loadedimg r m in
      let loop = relocation_loop address_of image loadedimg dynsym_sec dynstr rels in
      ap (λ x. loop i x m) {y = suc (k + suc n)} (omega arith)
      ∙ by_first (is_refused r) (loop (i + 1) k next) (loop (i + 1) (k + suc n) next) ok refused
          (λ fine later. loop-stops dynstr rels k n (i + 1) next fine (
            subst
              (λ x.
                is_refused (
                  relocation address_of image loadedimg dynsym_sec ((loop (i + 1) k next).1) dynstr
                    rels x)
                ≡ true)
              (omega arith) later))
    where
      by_first :
          (first : Bool) (short long : ℕ × Memory)
          → (if first then (1, m) else short).0 ≡ 0
          → is_refused (
              relocation address_of image loadedimg dynsym_sec
                ((if first then (1, m) else short).1)
                dynstr
                rels
                (i + suc k))
            ≡ true
          → (short.0 ≡ 0
              → is_refused (
                  relocation address_of image loadedimg dynsym_sec
                    (short.1)
                    dynstr
                    rels
                    (i + suc k))
                ≡ true
              → long ≡ (1, short.1))
          → (if first then (1, m) else long) ≡ (1, (if first then (1, m) else short).1)
      by_first true short long ok refused rest = refl
      by_first false short long ok refused rest = rest ok refused

  -- The first entry that is refused, as it is read when its turn comes, ends the function with 1, and
  -- the memory is as the entries before it left it: neither that entry nor a later one sets a word.
  pub process_relocations-refused :
      (rel_dyn dynstr_sec : ℕ) (m : Memory) (j : ℕ)
      → let dynstr = add32 image (section_at m dynstr_sec).sh_offset in
        let rels = add32 image (section_at m rel_dyn).sh_offset in
        let before = relocation_loop address_of image loadedimg dynsym_sec dynstr rels 0 j m in
        j < (section_at m rel_dyn).sh_size / sizeof_rel
        → before.0 ≡ 0
        → is_refused (relocation address_of image loadedimg dynsym_sec (before.1) dynstr rels j)
          ≡ true
        → process_relocations address_of image loadedimg dynsym_sec rel_dyn dynstr_sec m
          ≡ (1, before.1)
  unfolding process_relocations
  process_relocations-refused rel_dyn dynstr_sec m j below ok refused =
      let dynstr = add32 image (section_at m dynstr_sec).sh_offset in
      let rels = add32 image (section_at m rel_dyn).sh_offset in
      let count = (section_at m rel_dyn).sh_size / sizeof_rel in
      ap (λ n. relocation_loop address_of image loadedimg dynsym_sec dynstr rels 0 n m) {x = count}
        {y = j + suc (count - suc j)} (omega arith)
      ∙ loop-stops dynstr rels j (count - suc j) 0 m ok (
          subst
            (λ x.
              is_refused (
                relocation address_of image loadedimg dynsym_sec
                  ((relocation_loop address_of image loadedimg dynsym_sec dynstr rels 0 j m).1)
                  dynstr rels x)
              ≡ true)
            (omega arith) refused)

  module _ (rel_dyn dynstr_sec : ℕ) (start : Memory) where
    abbrev rels : ℕ
    rels = Format.rels address_of image loadedimg dynsym_sec rel_dyn dynstr_sec start

    abbrev dynstr : ℕ
    dynstr = Format.dynstr address_of image loadedimg dynsym_sec rel_dyn dynstr_sec start

    abbrev count : ℕ
    count = Format.count address_of image loadedimg dynsym_sec rel_dyn dynstr_sec start

    abbrev entry_in : Memory → (i : ℕ) → Relocation
    entry_in = Format.entry_in address_of image loadedimg dynsym_sec rel_dyn dynstr_sec start

    abbrev entry : (i : ℕ) → Relocation
    entry = Format.entry address_of image loadedimg dynsym_sec rel_dyn dynstr_sec start

    abbrev target : (i : ℕ) → ℕ
    target = Format.target address_of image loadedimg dynsym_sec rel_dyn dynstr_sec start

    abbrev word : (i : ℕ) → ℕ
    word = Format.word address_of image loadedimg dynsym_sec rel_dyn dynstr_sec start

    abbrev relocated : (i : ℕ) → ℕ
    relocated = Format.relocated address_of image loadedimg dynsym_sec rel_dyn dynstr_sec start

    -- A byte that no entry sets.
    abbrev pub Outside : (b : ℕ) → Type 0
    Outside b = (i : ℕ) → i < count → (b < target i) ⊎ (target i + 4 ≤ b)

    abbrev pub Untouched : Memory → Type 0
    Untouched m = (b : ℕ) → Outside b → m b ≡ start b

    -- Nothing that an entry is read from is in a word that an entry sets.
    abbrev pub IsIndependent : Type 0
    IsIndependent = (m : Memory) → Untouched m → (i : ℕ) → i < count → entry_in m i ≡ entry i

    abbrev pub Accepted : Type 0
    Accepted = (i : ℕ) → i < count → is_refused (entry i) ≡ false

    -- The words that two of the entries set do not overlap.
    abbrev pub TargetsApart : Type 0
    TargetsApart = (a b : ℕ) → a < count → b < count → a ≢ b → Apart (target a) (target b)

    abbrev after : (i : ℕ) → Memory → Memory
    after i m = write32 m (target i) (value_of loadedimg (entry i) m)

    abbrev run : (i left : ℕ) → Memory → ℕ × Memory
    run = relocation_loop address_of image loadedimg dynsym_sec dynstr rels

    module _ (independent : IsIndependent) (ok : Accepted) (apart : TargetsApart) where
      run-step :
          (i k : ℕ) (m : Memory)
          → Untouched m
          → i < count
          → run i (suc k) m ≡ run (i + 1) k (after i m)
      unfolding relocation_loop
      run-step i k m same below =
          rw
            (
              independent m same i below,
              ok i below,
              apply_relocation-value loadedimg (entry i) m (ok i below),
            )
            refl

      after-Untouched : (i : ℕ) (m : Memory) → Untouched m → i < count → Untouched (after i m)
      after-Untouched i m same below b out =
          write32-other m (target i) (value_of loadedimg (entry i) m) b (out i below) ∙ same b out

      run-result : (k i : ℕ) (m : Memory) → Untouched m → i + k ≤ count → (run i k m).0 ≡ 0
      unfolding relocation_loop
      run-result zero i m same le = refl
      run-result (suc k) i m same le =
          ap (λ p. p.0) (run-step i k m same (omega arith))
          ∙ run-result k (i + 1) (after i m) (after-Untouched i m same (omega arith)) (omega arith)

      run-Untouched :
          (k i : ℕ) (m : Memory) → Untouched m → i + k ≤ count → Untouched ((run i k m).1)
      unfolding relocation_loop
      run-Untouched zero i m same le = same
      run-Untouched (suc k) i m same le =
          subst (λ p. Untouched (p.1)) (sym (run-step i k m same (omega arith)))
            (run-Untouched k (i + 1) (after i m) (after-Untouched i m same (omega arith))
              (omega arith))

      run-word :
          (k i : ℕ) (m : Memory) (b : ℕ)
          → Untouched m
          → i + k ≤ count
          → ((j : ℕ) → i ≤ j → j < i + k → Apart (target j) b)
          → read32 ((run i k m).1) b ≡ read32 m b
      unfolding relocation_loop
      run-word zero i m b same le away = refl
      run-word (suc k) i m b same le away =
          ap (λ p. read32 (p.1) b) (run-step i k m same (omega arith))
          ∙ run-word k (i + 1) (after i m) b (after-Untouched i m same (omega arith)) (omega arith)
              (λ j lo hi. away j (omega arith) (omega arith))
          ∙ write32-read32 m (target i) (value_of loadedimg (entry i) m) b
              (away i (omega arith) (omega arith))

      run-target :
          (k i : ℕ) (m : Memory) (j : ℕ)
          → Untouched m
          → i + k ≤ count
          → i ≤ j
          → j < i + k
          → read32 ((run i k m).1) (target j) ≡ u32 (value_of loadedimg (entry j) m)
      unfolding relocation_loop
      run-target zero i m j same le lo hi = absurd (omega arith)
      run-target (suc k) i m j same le lo hi =
          let later = after-Untouched i m same (omega arith) in
          let step = ap (λ p. read32 (p.1) (target j)) (run-step i k m same (omega arith)) in
          elim (Bool-cases (i == j)) [
            | inl e ↦
                let here : i ≡ j = ground arith in
                step
                ∙ run-word k (i + 1) (after i m) (target j) later (omega arith)
                    (λ x l h. apart x j (omega arith) (omega arith) (omega arith))
                ∙ ap (λ x. read32 (after i m) (target x)) (sym here)
                ∙ read32-same m (target i) (value_of loadedimg (entry i) m)
                ∙ ap (λ x. u32 (value_of loadedimg (entry x) m)) here
            | inr ne ↦
                let differ : i ≢ j = ground arith in
                step
                ∙ run-target k (i + 1) (after i m) j later (omega arith) (ground arith)
                    (omega arith)
                ∙ ap u32 (
                    value_of-write32 loadedimg (target i) (value_of loadedimg (entry i) m) (entry j)
                      m (apart i j (omega arith) (omega arith) differ))
          ]

      run-elsewhere : (m : Memory) (b : ℕ) → Untouched m → Outside b → (run 0 count m).1 b ≡ start b
      run-elsewhere m b same out = run-Untouched count 0 m same (omega arith) b out

      -- Let no entry of the table be refused, the words that they set not overlap, and the entries, their
      -- symbols and names not be in these words. Then the function returns 0. The word of an entry
      -- holds the address of its symbol, which is the symbol's place in the loaded image or, for a
      -- symbol without a section, where the kernel has the function of that name; or, for a relative
      -- entry, the address of the loaded image added to what the word held before. A byte outside of
      -- all the words is as it was.
      pub process_relocations-relocated :
          (j b : ℕ)
          → j < count
          → Outside b
          → let done =
              process_relocations address_of image loadedimg dynsym_sec rel_dyn dynstr_sec start in
            (done.0 ≡ 0) × (read32 (done.1) (word j) ≡ relocated j) × (done.1 b ≡ start b)
      unfolding process_relocations
      process_relocations-relocated j b below away = (
        run-result count 0 start (λ x out. refl) (omega arith),
        ap (λ a. read32 ((run 0 count start).1) a)
              (sym (
                Format.entry-word address_of image loadedimg dynsym_sec rel_dyn dynstr_sec start j))
            ∙ run-target count 0 start j (λ x out. refl) (omega arith) (omega arith) (omega arith)
            ∙ Format.entry-relocated address_of image loadedimg dynsym_sec rel_dyn dynstr_sec start
                j,
        run-elsewhere start b (λ x out. refl) away,
      )
