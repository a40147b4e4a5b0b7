-- ===== src/Boot/Tags/Stuck.antt =====
-- A tag without a size stops the walk of `init_boot`.
use wolf_os.Base.{
  ℕ, zero, suc, ◌+◌, ◌^◌, ◌<◌, ◌≡◌, ◌≢◌, refl, true, false, ltb, ◌==◌, Bool-cases, inl, inr, arith,
}
use wolf_os.Base.Words.{add32}
use wolf_os.Base.Machine.{Memory, read32}
use wolf_os.Boot.Tags.{
  BootData, Boot, out_of_fuel, with_framebuffer, take_tag, aligned_size, walk_tags, tag_mmap,
}

no_size : aligned_size 0 ≡ 0
unfolding aligned_size
no_size = refl

-- What a tag other than a memory map changes is the data only.
take_tag-same :
    (m : Memory) (p kind size : ℕ) (b : BootData) (go_on : BootData → Boot) (r : Boot)
    → (kind == tag_mmap) ≡ false
    → ((b' : BootData) → go_on b' ≡ r)
    → take_tag m p kind size b go_on ≡ r
unfolding take_tag
take_tag-same m p kind size b go_on r other all =
    ground (arith, all b, all (with_framebuffer m p b), all (record b { boot_source = 1 }))

-- From a tag of size 0 that is not a memory map, the walk never comes to an end: it is at the same
-- tag after any number of rounds.
pub walk_tags-stuck :
    (m : Memory) (fuel end p : ℕ) (b : BootData)
    → p < end
    → end < 2 ^ 32
    → read32 m (p + 4) ≡ 0
    → read32 m p ≢ tag_mmap
    → walk_tags m fuel end p b ≡ out_of_fuel
unfolding walk_tags
walk_tags-stuck m zero end p b below small size kind = refl
walk_tags-stuck m (suc fuel) end p b below small size kind =
    let inside : ltb p end ≡ true = ground arith in
    let other : (read32 m p == tag_mmap) ≡ false = ground arith in
    let stay : add32 p 0 ≡ p = omega arith in
    let again =
      take_tag-same m p (read32 m p) 0 b (λ b'. walk_tags m fuel end p b') out_of_fuel other
        (λ b'. walk_tags-stuck m fuel end p b' below small size kind) in
    elim (Bool-cases (read32 m p == 0)) [
      | inl e ↦ rw (inside, size, e, no_size, stay) again
      | inr e ↦ rw (inside, size, e, no_size, stay) again
    ]
