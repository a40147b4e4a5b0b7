-- ===== src/Drivers/Framebuffer.antt =====
-- drivers/BootloaderFB/main.c: the pixels of the frame buffer that the boot loader set up. What `init`
-- prints is not modelled.
pub mod Pixels
pub mod Shift
pub mod Tests
use wolf_os.Base.{
  ℕ, ◌+◌, ◌-◌, ◌*◌, ◌/◌, ◌^◌, Bool, ◌||◌, Option, none, some, ltb, leb, ◌==◌, if◌then◌else◌,
}
use wolf_os.Base.Words.{u16, u32, add32, mul32}
use wolf_os.Base.Machine.{Memory, read32, write32}
use wolf_os.Boot.Tags.{BootData}
use wolf_os.Util.Strings.{memset}
use wolf_os.Util.Strings.Blocks.{memmove}

-- `framebuffer_t`
pub record Framebuffer : Type 0 where
  pub addr : ℕ
  pub width : ℕ
  pub height : ℕ
  pub pitch : ℕ
  pub bpp : ℕ

-- The result of `init` and the buffer that it leaves; `before` is the static one.
unfoldable pub init : BootData → (before : Framebuffer) → ℕ × Framebuffer
init b before =
    if ltb b.framebuffer_width 160
    then (1, before)
    else if leb 0xffff_0000 b.framebuffer_addr
    then (1, before)
    else (
      0,
      record {
        addr = u32 b.framebuffer_addr;
        width = b.framebuffer_width;
        height = b.framebuffer_height;
        pitch = b.framebuffer_pitch;
        bpp = b.framebuffer_bpp;
      },
    )

-- `row + x * (fb.bpp / 8)`
unfoldable pub pixel_address : Framebuffer → (x y : ℕ) → ℕ
pixel_address fb x y = add32 (add32 fb.addr (mul32 y fb.pitch)) (mul32 x (fb.bpp / 8))

-- The two guards of the pixel functions.
abbrev pub outside : Framebuffer → (x y : ℕ) → Bool
outside fb x y = (fb.width == 0) || (fb.height == 0) || (leb fb.width x || leb fb.height y)

unfoldable pub kgetpixel : Framebuffer → Memory → (x y : ℕ) → ℕ
kgetpixel fb m x y = if outside fb x y then 0 else read32 m (pixel_address fb x y)

unfoldable pub ksetpixel : Framebuffer → Memory → (x y color : ℕ) → Memory
ksetpixel fb m x y color = if outside fb x y then m else write32 m (pixel_address fb x y) color

-- `capabilities` decides which routines the kernel's `memset` and `memmove` are; `none` is a fault.
unfoldable pub kvshift : (capabilities : ℕ) → Framebuffer → Memory → (rows : ℕ) → Option Memory
kvshift capabilities fb m rows =
    let move_bytes = mul32 (fb.height - rows) fb.pitch in
    let clear_bytes = mul32 rows fb.pitch in
    if (rows == 0) || (fb.width == 0) || (fb.height == 0)
    then some m
    else if leb fb.height rows
    then memset capabilities m fb.addr 0 (mul32 fb.height fb.pitch)
    else memset capabilities
        (memmove capabilities m fb.addr (add32 fb.addr (mul32 rows fb.pitch)) move_bytes)
        (add32 fb.addr move_bytes) 0 clear_bytes

-- `struct kfbmode`, width and height
unfoldable pub getfbmode : BootData → ℕ × ℕ
getfbmode b = (u16 b.framebuffer_width, u16 b.framebuffer_height)
