-- ===== src/Boot/Tags/Tests.antt =====
-- The walk over the tags: the theorems at a memory with two tags.
use wolf_os.Base.{◌≡◌, List, [], ◌∷◌, arith, refl}
use wolf_os.Base.Machine.{Memory, write32}
use wolf_os.Boot.Tags.{
  BootData, done, out_of_fuel, walk_tags, init_boot, bootloader_magic, bootsource_bios,
}
use wolf_os.Boot.Tags.Collect.{Tag, Laid, collected, init_boot-collected}
use wolf_os.Boot.Tags.Stuck.{walk_tags-stuck}

abbrev empty : BootData
empty = record {
  mmap_entries = 0;
  mmap_base = 0;
  framebuffer_addr = 0;
  framebuffer_pitch = 0;
  framebuffer_width = 0;
  framebuffer_height = 0;
  framebuffer_bpp = 0;
  boot_source = 0;
}

-- At 1000: 80 bytes in all, a memory map of one entry of 24 bytes, an EFI tag, and the end.
abbrev information : Memory
information =
    write32
      (write32
        (write32
          (write32 (write32 (write32 (write32 (write32 (λ a. 0) 1000 80) 1008 6) 1012 40) 1016 24)
            1048 17)
          1052 12)
        1064 0)
      1068 8

abbrev tags : List Tag
tags = record { at = 1008; kind = 6; size = 40 } ∷ record { at = 1048; kind = 17; size = 12 } ∷ []

init_boot-collected_example :
    init_boot information 3 bootloader_magic 1000 empty ≡ done (collected information tags empty)
init_boot-collected_example =
    init_boot-collected information tags 3 bootloader_magic 1000 empty (omega arith)
      (
        refl,
        omega arith,
        refl,
        refl,
        omega arith,
        omega arith,
        refl,
        (refl, omega arith, refl, refl, omega arith, omega arith, refl, (omega arith, refl, refl)),
      )
      (omega arith)

collects :
    collected information tags empty
    ≡ record empty { mmap_entries = 1; mmap_base = 1024; boot_source = 1 }
unfolding wolf_os.Boot.Tags.Collect.last wolf_os.Boot.Tags.Collect.any
collects = refl

-- A framebuffer tag without a size
walk_tags-stuck_example : walk_tags (write32 (λ a. 0) 0 8) 100 64 0 empty ≡ out_of_fuel
walk_tags-stuck_example =
    walk_tags-stuck (write32 (λ a. 0) 0 8) 100 64 0 empty (omega arith) (omega arith) refl
      (λ e. omega (arith, e))
