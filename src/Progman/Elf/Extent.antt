-- ===== src/Progman/Elf/Extent.antt =====
-- `get_elf_min_csize`: the sections that are loaded fit, and no smaller size would do.
use wolf_os.Base.{
  ℕ, zero, suc, ◌+◌, ◌≤◌, ◌<◌, ◌≡◌, refl, sym, subst, ◌∙◌, ◌⊎◌, inl, inr, ◌&&◌, ltb, ◌==◌, bit_and,
  Bool-cases, arith,
}
use wolf_os.Base.Words.{add32}
use wolf_os.Base.Machine.{Memory}
use wolf_os.Progman.Elf.{
  ElfSection, get_section_data, e_shnum, widen, min_csize_loop, get_elf_min_csize,
}

-- A section that takes memory, and where it ends in the image.
abbrev pub IsLoaded : ElfSection → Type 0
IsLoaded s = bit_and s.sh_flags 2 ≡ 2

abbrev pub end_of : ElfSection → ℕ
end_of s = add32 s.sh_addr s.sh_size

widen-le : (s : ElfSection) (n : ℕ) → n ≤ widen s n
unfolding widen
widen-le s n = ground arith

widen-covers : (s : ElfSection) (n : ℕ) → IsLoaded s → end_of s ≤ widen s n
unfolding widen
widen-covers s n h = ground arith

widen-cases : (s : ElfSection) (n : ℕ) → (widen s n ≡ n) ⊎ (IsLoaded s × (widen s n ≡ end_of s))
unfolding widen
widen-cases s n = elim (Bool-cases ((bit_and s.sh_flags 2 == 2) && ltb n (end_of s))) [
  | inl e ↦ rw e (inr (ground arith, refl))
  | inr e ↦ rw e (inl refl)
]

module _ (m : Memory) (binary : ℕ) where
  min_csize_loop-le : (k i n : ℕ) → n ≤ min_csize_loop m binary i k n
  unfolding min_csize_loop
  min_csize_loop-le zero i n = omega arith
  min_csize_loop-le (suc k) i n = omega (
    arith,
    widen-le (get_section_data m binary i) n,
    min_csize_loop-le k (i + 1) (widen (get_section_data m binary i) n),
  )

  min_csize_loop-covers :
      (k i n j : ℕ)
      → i ≤ j
      → j < i + k
      → IsLoaded (get_section_data m binary j)
      → end_of (get_section_data m binary j) ≤ min_csize_loop m binary i k n
  unfolding min_csize_loop
  min_csize_loop-covers zero i n j lo hi h = absurd (omega arith)
  min_csize_loop-covers (suc k) i n j lo hi h =
      let next = widen (get_section_data m binary i) n in
      elim (Bool-cases (i == j)) [
        | inl e ↦
            let same : i ≡ j = ground arith in
            let loaded : IsLoaded (get_section_data m binary i) =
              subst (λ x. IsLoaded (get_section_data m binary x)) (sym same) h in
            let covers : end_of (get_section_data m binary i)
                ≤ min_csize_loop m binary (i + 1) k next =
              omega (
                arith,
                widen-covers (get_section_data m binary i) n loaded,
                min_csize_loop-le k (i + 1) next,
              ) in
            subst
              (λ x. end_of (get_section_data m binary x) ≤ min_csize_loop m binary (i + 1) k next)
              same covers
        | inr ne ↦ min_csize_loop-covers k (i + 1) next j (ground arith) (omega arith) h
      ]

  -- The least size is reached: it is the start value or the end of a loaded section.
  min_csize_loop-reached :
      (k i n : ℕ)
      → (min_csize_loop m binary i k n ≡ n)
        ⊎ ((j : ℕ) × (j < i + k)
            × IsLoaded (get_section_data m binary j)
            × (min_csize_loop m binary i k n ≡ end_of (get_section_data m binary j)))
  unfolding min_csize_loop
  min_csize_loop-reached zero i n = inl refl
  min_csize_loop-reached (suc k) i n =
      let s = get_section_data m binary i in
      elim (min_csize_loop-reached k (i + 1) (widen s n)) [
        | inl e ↦ elim (widen-cases s n) [
          | inl w ↦ inl (e ∙ w)
          | inr (loaded, w) ↦ inr (i, omega arith, loaded, e ∙ w)
        ]
        | inr (j, lt, loaded, e) ↦ inr (j, omega arith, loaded, e)
      ]

  -- The image of `get_elf_min_csize` bytes holds every section that is loaded, and is not larger than
  -- the sections need: it is empty or ends where one of them ends.
  pub get_elf_min_csize-covers :
      (j : ℕ)
      → j < e_shnum m binary
      → IsLoaded (get_section_data m binary j)
      → (end_of (get_section_data m binary j) ≤ get_elf_min_csize m binary)
        × ((get_elf_min_csize m binary ≡ 0)
            ⊎ ((i : ℕ) × (i < e_shnum m binary)
                × IsLoaded (get_section_data m binary i)
                × (get_elf_min_csize m binary ≡ end_of (get_section_data m binary i))))
  unfolding get_elf_min_csize
  get_elf_min_csize-covers j lt h = (
    min_csize_loop-covers (e_shnum m binary) 0 0 j (omega arith) (omega arith) h,
    elim (min_csize_loop-reached (e_shnum m binary) 0 0) [
      | inl e ↦ inl e
      | inr (i, below, loaded, e) ↦ inr (i, omega arith, loaded, e)
    ],
  )
