-- ===== src/Progman/Elf/LoadTests.antt =====
-- A binary of one section of 8 bytes that is loaded, and a memory that holds no binary.
use wolf_os.Base.{ℕ, zero, suc, ◌+◌, ◌≡◌, ◌<◌, ◌^◌, refl, inl, ◌==◌, if◌then◌else◌, arith}
use wolf_os.Base.Words.{add32}
use wolf_os.Base.Machine.{Memory}
use wolf_os.Progman.Elf.{get_section_data, get_elf_min_csize, e_shnum, min_csize_loop, widen}
use wolf_os.Progman.Elf.Load.{
  Loading, start_loading, load_sections, check_header, is_elf, unless_refused, place_binary,
  finish_load, load_driver_bin,
}
use wolf_os.Progman.Elf.Relocate.{relocation_loop, process_relocations}
use wolf_os.Util.Strings.{fill}
use wolf_os.Progman.Elf.Placed.{IsPlaced, section, load_sections-placed}
use wolf_os.Progman.Elf.Accepted.{IsElf386, LoadsAt}

-- The section header is at 64: at 16 in the image, at 200 in the binary.
abbrev binary : Memory
binary a =
    if a == 32
    then 64
    else if a == 46
    then 40
    else if a == 48
    then 1
    else if a == 72
    then 2
    else if a == 76
    then 16
    else if a == 80
    then 200
    else if a == 84
    then 8
    else if a == 203
    then 77
    else 0

abbrev empty_image : Loading
empty_image = record { rel_dyn = 0; dynsym = 0; dynstr = 0; image = λ a. 0 }

first-IsPlaced : IsPlaced (section binary 0 1000 0)
unfolding get_section_data
first-IsPlaced = (refl, refl)

fits :
    (i : ℕ)
    → i < e_shnum binary 0
    → IsPlaced (section binary 0 1000 i)
    → (section binary 0 1000 i).sh_addr + (section binary 0 1000 i).sh_size < 2 ^ 32
unfolding get_section_data
fits zero lt placed = omega arith
fits (suc i) lt placed = absurd (omega arith)

load_sections-placed_example :
    let done = load_sections binary 0 1000 0 0 (e_shnum binary 0) empty_image in
    (done.image (1000 + (section binary 0 1000 0).sh_addr + 3)
      ≡ binary (add32 0 (section binary 0 1000 0).sh_offset + 3))
    × (done.image 999 ≡ empty_image.image 999)
unfolding get_section_data get_elf_min_csize min_csize_loop widen
load_sections-placed_example =
    load_sections-placed binary 0 1000 0 0 3 999 empty_image (omega arith) fits (omega arith)
      first-IsPlaced (omega arith) (λ l lo hi placed. absurd (omega arith)) (inl (omega arith))

-- A binary without sections. Nothing is at the places where the three sections would be, but the version
-- in the header is at 20, where a section has its size: the size of the table of relocations is 1.
abbrev loadable : Memory
loadable a =
    if a == 0
    then 0x7f
    else if a == 1
    then 0x45
    else if a == 2
    then 0x4c
    else if a == 3
    then 0x46
    else if a == 4
    then 1
    else if a == 5
    then 1
    else if a == 6
    then 1
    else if a == 18
    then 3
    else if a == 20
    then 1
    else 0

loadable-IsElf386 : IsElf386 loadable 0
loadable-IsElf386 = (refl, refl, refl, refl, refl, refl, refl, refl, refl)

-- It is loaded, or it is written at 0 if there is no memory for the passport.
loadable-LoadsAt :
    LoadsAt (load_driver_bin (λ f. 4096) (λ n. 61440) (λ n a. 65536) loadable 0) 65536
unfolding load_driver_bin check_header is_elf unless_refused place_binary finish_load load_sections
    process_relocations relocation_loop start_loading get_section_data get_elf_min_csize
    min_csize_loop fill
loadable-LoadsAt = (_, _, refl, refl)
