-- ===== src/Drivers/Framebuffer/Tests.antt =====
-- The frame buffer: the theorems at a mode of 160 by 2 pixels.
use wolf_os.Base.{◌%◌, ◌≡◌, arith, some, ◌^◌}
use wolf_os.Base.Machine.{Memory}
use wolf_os.Drivers.Framebuffer.{Framebuffer, kgetpixel, kvshift}
use wolf_os.Drivers.Framebuffer.Pixels.{IsMode}
use wolf_os.Drivers.Framebuffer.Shift.{kgetpixel-kvshift}

abbrev small_mode : Framebuffer
small_mode = record { addr = 0x1000; width = 160; height = 2; pitch = 640; bpp = 32 }

small_mode-IsMode : IsMode small_mode
small_mode-IsMode = omega arith

abbrev picture : Memory
picture a = a % 256

kgetpixel-kvshift_example :
    (m : Memory) × (kvshift (2 ^ 25) small_mode picture 1 ≡ some m)
    × (kgetpixel small_mode m 7 0 ≡ kgetpixel small_mode picture 7 1)
kgetpixel-kvshift_example =
    kgetpixel-kvshift small_mode small_mode-IsMode (2 ^ 25) picture 1 7 0 (omega arith)
      (omega arith)
