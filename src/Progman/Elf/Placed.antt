-- ===== src/Progman/Elf/Placed.antt =====
-- Where `load_driver_bin` puts the sections of a binary.
use wolf_os.Base.{
  ℕ, zero, suc, ◌+◌, ◌-◌, ◌^◌, ◌≤◌, ◌<◌, ◌≡◌, refl, ap, sym, subst, ◌∙◌, ◌⊎◌, inl, inr, true, ◌&&◌,
  ltb, leb, ◌==◌, bit_and, if◌then◌else◌, Bool-cases, arith,
}
use wolf_os.Base.Bits.{bit_and_single}
use wolf_os.Base.Words.{add32}
use wolf_os.Base.Machine.{Memory, poke}
use wolf_os.Progman.Elf.{ElfSection, get_section_data, e_shnum, get_elf_min_csize}
use wolf_os.Progman.Elf.Extent.{IsLoaded, get_elf_min_csize-covers}
use wolf_os.Progman.Elf.Load.{Loading, copy_section, place, load_section, load_sections}

copy_section-copied :
    (n : ℕ) (file m : Memory) (d s b : ℕ)
    → copy_section file d s n m b ≡ (if leb d b && ltb b (d + n) then file (s + (b - d)) else m b)
unfolding copy_section
copy_section-copied zero file m d s b = ground arith
copy_section-copied (suc n) file m d s b =
    rw (copy_section-copied n file (poke m d (file s)) (d + 1) (s + 1) b)
      (elim (Bool-cases (ltb d b)) [
        | inl after ↦
            let at : s + 1 + (b - (d + 1)) ≡ s + (b - d) = ground arith in rw at (ground arith)
        | inr upto ↦ elim (Bool-cases (b == d)) [
          | inl e ↦ let first : s + (b - d) ≡ s = ground arith in rw first (ground arith)
          | inr ne ↦ ground arith
        ]
      ])

-- A section whose bytes the loop copies.
abbrev pub IsPlaced : ElfSection → Type 0
IsPlaced s = (bit_and s.sh_flags 8 ≡ 0) × IsLoaded s

module _ (file : Memory) (binary loadloc : ℕ) where
  abbrev pub start_of : ElfSection → ℕ
  start_of s = add32 loadloc s.sh_addr

  abbrev pub Away : ElfSection → (b : ℕ) → Type 0
  Away s b = (b < start_of s) ⊎ (start_of s + s.sh_size ≤ b)

  place-cases :
      (s : ElfSection) (m : Memory)
      → (place file binary loadloc s m ≡ m)
        ⊎ (IsPlaced s
            × (place file binary loadloc s m
                ≡ copy_section file (start_of s) (add32 binary s.sh_offset) s.sh_size m))
  unfolding place
  place-cases s m = elim (Bool-cases (bit_and s.sh_flags 8 == 0)) [
    | inr e ↦ rw e (inl refl)
    | inl e ↦ elim (Bool-cases (bit_and s.sh_flags 2 == 0)) [
      | inl z ↦ rw (e, z) (inl refl)
      | inr z ↦
          let digit = bit_and_single 1 s.sh_flags in
          let eight : bit_and s.sh_flags 8 ≡ 0 = ground arith in
          let two : bit_and s.sh_flags 2 ≡ 2 = ground (arith, digit) in
          rw (e, z) (inr ((eight, two), refl))
    ]
  ]

  place-placed :
      (s : ElfSection) (m : Memory)
      → IsPlaced s
      → place file binary loadloc s m
        ≡ copy_section file (start_of s) (add32 binary s.sh_offset) s.sh_size m
  unfolding place
  place-placed s m (eight, two) = rw (eight, two) refl

  place-Away :
      (s : ElfSection) (m : Memory) (b : ℕ)
      → (IsPlaced s → Away s b)
      → place file binary loadloc s m b ≡ m b
  place-Away s m b away = elim (place-cases s m) [
    | inl e ↦ ap (λ f. f b) e
    | inr (placed, e) ↦
        let out = away placed in
        ap (λ f. f b) e
        ∙ copy_section-copied s.sh_size file m (start_of s) (add32 binary s.sh_offset) b
        ∙ ground (arith, out)
  ]

  place-byte :
      (s : ElfSection) (m : Memory) (o : ℕ)
      → IsPlaced s
      → o < s.sh_size
      → place file binary loadloc s m (start_of s + o) ≡ file (add32 binary s.sh_offset + o)
  place-byte s m o placed below =
      let a = start_of s + o in
      let inside : (leb (start_of s) a && ltb a (start_of s + s.sh_size)) ≡ true = ground arith in
      let at : a - start_of s ≡ o = omega arith in
      ap (λ f. f a) (place-placed s m placed)
      ∙ copy_section-copied s.sh_size file m (start_of s) (add32 binary s.sh_offset) a
      ∙ rw (inside, at) refl

  abbrev pub section : (i : ℕ) → ElfSection
  section = get_section_data file binary

  load_section-image :
      (names i : ℕ) (st : Loading)
      → (load_section file binary loadloc names i st).image
        ≡ place file binary loadloc (section i) st.image
  unfolding load_section get_section_data
  load_section-image names i st = refl

  load_sections-Away :
      (k names i b : ℕ) (st : Loading)
      → ((j : ℕ) → i ≤ j → j < i + k → IsPlaced (section j) → Away (section j) b)
      → (load_sections file binary loadloc names i k st).image b ≡ st.image b
  unfolding load_sections
  load_sections-Away zero names i b st away = refl
  load_sections-Away (suc k) names i b st away =
      load_sections-Away k names (i + 1) b (load_section file binary loadloc names i st)
        (λ j lo hi. away j (omega arith) (omega arith))
      ∙ ap (λ f. f b) (load_section-image names i st)
      ∙ place-Away (section i) st.image b (away i (omega arith) (omega arith))

  load_sections-byte :
      (k names i j o : ℕ) (st : Loading)
      → i ≤ j
      → j < i + k
      → IsPlaced (section j)
      → o < (section j).sh_size
      → ((l : ℕ)
          → j < l
          → l < i + k
          → IsPlaced (section l)
          → Away (section l) (start_of (section j) + o))
      → (load_sections file binary loadloc names i k st).image (start_of (section j) + o)
        ≡ file (add32 binary (section j).sh_offset + o)
  unfolding load_sections
  load_sections-byte zero names i j o st lo hi placed below later = absurd (omega arith)
  load_sections-byte (suc k) names i j o st lo hi placed below later =
      let next = load_section file binary loadloc names i st in
      elim (Bool-cases (i == j)) [
        | inl e ↦
            let same : j ≡ i = ground arith in
            load_sections-Away k names (i + 1) (start_of (section j) + o) next
              (λ l la ha. later l (omega arith) (omega arith))
            ∙ ap (λ f. f (start_of (section j) + o)) (load_section-image names i st)
            ∙ ap (λ x. place file binary loadloc (section x) st.image (start_of (section j) + o))
                (sym same)
            ∙ place-byte (section j) st.image o placed below
        | inr ne ↦
            load_sections-byte k names (i + 1) j o next (ground arith) (omega arith) placed below
              (λ l la ha. later l la (omega arith))
      ]

  -- The image has room and no section that is copied wraps around: it starts in the image and ends
  -- there.
  start_of-within :
      (j : ℕ)
      → loadloc + get_elf_min_csize file binary < 2 ^ 32
      → j < e_shnum file binary
      → IsPlaced (section j)
      → (section j).sh_addr + (section j).sh_size < 2 ^ 32
      → (start_of (section j) ≡ loadloc + (section j).sh_addr)
        × (start_of (section j) + (section j).sh_size ≤ loadloc + get_elf_min_csize file binary)
  start_of-within j room below placed fits =
      let covers = (get_elf_min_csize-covers file binary j below placed.1).0 in
      let start : start_of (section j) ≡ loadloc + (section j).sh_addr = ground (arith, covers) in
      (start, ground (arith, covers, start))

  -- Let the image of `get_elf_min_csize` bytes and the sections that are copied not wrap around. Then
  -- a byte of such a section is in the image at the section's address what it is in the binary, unless
  -- a later section covers it, and a byte outside of the image is as it was.
  pub load_sections-placed :
      (names j o b : ℕ) (st : Loading)
      → loadloc + get_elf_min_csize file binary < 2 ^ 32
      → ((i : ℕ)
          → i < e_shnum file binary
          → IsPlaced (section i)
          → (section i).sh_addr + (section i).sh_size < 2 ^ 32)
      → j < e_shnum file binary
      → IsPlaced (section j)
      → o < (section j).sh_size
      → ((l : ℕ)
          → j < l
          → l < e_shnum file binary
          → IsPlaced (section l)
          → Away (section l) (loadloc + (section j).sh_addr + o))
      → (b < loadloc) ⊎ (loadloc + get_elf_min_csize file binary ≤ b)
      → let done = load_sections file binary loadloc names 0 (e_shnum file binary) st in
        (done.image (loadloc + (section j).sh_addr + o)
          ≡ file (add32 binary (section j).sh_offset + o))
        × (done.image b ≡ st.image b)
  load_sections-placed names j o b st room fits below placed inside later out = (
    (let start = (start_of-within j room below placed (fits j below placed)).0 in
        subst
          (λ a.
            (load_sections file binary loadloc names 0 (e_shnum file binary) st).image (a + o)
            ≡ file (add32 binary (section j).sh_offset + o))
          start
          (load_sections-byte (e_shnum file binary) names 0 j o st (omega arith) (omega arith)
            placed inside
            (λ l lo hi is_placed.
              subst (λ a. Away (section l) (a + o)) (sym start)
                (later l lo (omega arith) is_placed)))),
    load_sections-Away (e_shnum file binary) names 0 b st (λ i lo hi is_placed.
        let (start, end) =
          start_of-within i room (omega arith) is_placed (fits i (omega arith) is_placed) in
        ground (arith, out, start, end)),
  )
