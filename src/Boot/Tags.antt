-- ===== src/Boot/Tags.antt =====
-- boot/bootscheme.c, `init_boot`: the walk over the tags of the boot information. No console is active
-- yet, so that its `printf` shows nothing.
pub mod Collect
pub mod Stuck
pub mod Tests
use wolf_os.Base.{
  ℕ, zero, suc, ◌+◌, ◌-◌, ◌*◌, ◌/◌, ◌^◌, bit_and, Bool, ◌&&◌, ltb, ◌==◌, if◌then◌else◌,
}
use wolf_os.Base.Words.{u32, add32, sub32}
use wolf_os.Base.Machine.{Memory, read32, read64}

-- `struct boot_data`; `header_start` and `header_size` are not set by any code.
pub record BootData : Type 0 where
  pub mmap_entries : ℕ
  pub mmap_base : ℕ
  pub framebuffer_addr : ℕ
  pub framebuffer_pitch : ℕ
  pub framebuffer_width : ℕ
  pub framebuffer_height : ℕ
  pub framebuffer_bpp : ℕ
  pub boot_source : ℕ

abbrev pub bootsource_bios : ℕ
bootsource_bios = 0

abbrev pub bootsource_uefi : ℕ
bootsource_uefi = 1

-- The numbers of boot/multiboot2.h that the walk looks for.
abbrev pub bootloader_magic : ℕ
bootloader_magic = 0x36d7_6289

abbrev pub tag_mmap : ℕ
tag_mmap = 6

abbrev pub tag_framebuffer : ℕ
tag_framebuffer = 8

abbrev pub tag_efi_mmap : ℕ
tag_efi_mmap = 17

abbrev pub tag_efi32_ih : ℕ
tag_efi32_ih = 19

abbrev pub framebuffer_indexed : ℕ
framebuffer_indexed = 0

-- The walk ends with the data, by a division by 0, by a panic, or without fuel.
pub data Boot : Type 0 where
  done : BootData → Boot
  divide_fault : Boot
  panicked : Boot
  out_of_fuel : Boot

abbrev pub with_mmap : (base entries : ℕ) → BootData → BootData
with_mmap base n b = record b { mmap_base = base; mmap_entries = n }

abbrev pub with_framebuffer : Memory → (tag : ℕ) → BootData → BootData
with_framebuffer m p b = record b {
  framebuffer_addr = read64 m (p + 8);
  framebuffer_pitch = read32 m (p + 16);
  framebuffer_width = read32 m (p + 20);
  framebuffer_height = read32 m (p + 24);
  framebuffer_bpp = m (p + 28);
}

-- The `switch` on the type of the tag at p; `go_on` is the rest of the walk.
unfoldable pub take_tag : Memory → (p tag_type tag_size : ℕ) → BootData → (BootData → Boot) → Boot
take_tag m p kind size b go_on =
    if kind == tag_mmap
    then (if read32 m (p + 8) == 0
        then divide_fault
        else go_on (with_mmap (p + 16) (sub32 size 16 / read32 m (p + 8)) b))
    else if kind == tag_framebuffer
    then go_on (if m (p + 29) == framebuffer_indexed then b else with_framebuffer m p b)
    else if kind == tag_efi_mmap
    then go_on (record b { boot_source = bootsource_uefi })
    else if kind == tag_efi32_ih
    then go_on (record b { boot_source = bootsource_uefi })
    else go_on b

-- `(tagSize + 7) & ~7`
unfoldable pub aligned_size : ℕ → ℕ
aligned_size size = bit_and (add32 size 7) 0xffff_fff8

unfoldable pub walk_tags : Memory → (fuel end_ptr crt_ptr : ℕ) → BootData → Boot
walk_tags m zero end p b = out_of_fuel
walk_tags m (suc fuel) end p b =
    let kind = read32 m p in
    let size = read32 m (p + 4) in
    let rest = λ (b' : BootData). walk_tags m fuel end (add32 p (aligned_size size)) b' in
    if ltb p end
    then (if (kind == 0) && (size == 8) then done b else take_tag m p kind size b rest)
    else done b

-- `before` is what the static structure holds from an earlier call.
unfoldable pub init_boot : Memory → (fuel multiboot_magic mbdata : ℕ) → (before : BootData) → Boot
init_boot m fuel magic mbdata before =
    if magic == bootloader_magic
    then walk_tags m fuel (add32 mbdata (read32 m mbdata)) (add32 mbdata 8)
        (record before { framebuffer_addr = 0; mmap_entries = 0; boot_source = bootsource_bios })
    else panicked
