-- ===== src/Drivers/Ehci/Schedules.antt =====
-- The lists that `bind_device_pci` of the EHCI driver makes for the controller.
use wolf_os.Base.{ℕ, ◌+◌, ◌*◌, ◌%◌, ◌<◌, ◌≡◌, ◌≢◌, Bool, true, false, ◌&&◌, bit_or, ltb, leb, ◌==◌}
use wolf_os.Base.Words.{add32}
use wolf_os.Drivers.Ehci.{EhciKernel}
use wolf_os.Drivers.Ehci.Bind.{fill_qh, frames_loop}
use wolf_os.Drivers.Ehci.Words.{IsMemory, IsQueueHead}

module _ {World : Type 0} (kernel : EhciKernel World) (memory : IsMemory kernel) where
  open kernel use {store32, kamalloc}
  open memory use {word, held, stores32, held32}

  -- The two registers hold the lists, every frame is the address of the periodic queue head with bit 0
  -- set, and no word that was held changes but for the registers.
  pub record Scheduled (op : ℕ) (before after : World) : Type 0 where
    pub frames : ℕ
    pub async_qh : ℕ
    pub periodic_qh : ℕ
    pub list_register : word after (add32 op 0x14) ≡ frames
    pub async_register : word after (add32 op 0x18) ≡ async_qh
    pub links : (i : ℕ) → i < 1024 → word after (frames + 4 * i) ≡ bit_or 1 periodic_qh
    pub async_head : IsQueueHead kernel memory after async_qh (bit_or async_qh 1) 0x8000
    pub periodic_head : IsQueueHead kernel memory after periodic_qh 0 0
    pub others :
        (b : ℕ)
        → b % 4 ≡ 0
        → held before b ≡ true
        → (b == add32 op 0x14) ≡ false
        → (b == add32 op 0x18) ≡ false
        → word after b ≡ word before b

  module _ (op : ℕ) (w : World) (ao : op % 4 ≡ 0) (list_held : held w (add32 op 0x14) ≡ true)
      (async_held : held w (add32 op 0x18) ≡ true) where
    abbrev frames : ℕ
    frames = (kamalloc 4096 4096 w).0

    abbrev w1 : World
    w1 = (kamalloc 4096 4096 w).1

    abbrev w2 : World
    w2 = store32 (add32 op 0x14) frames w1

    abbrev async_qh : ℕ
    async_qh = (kamalloc 48 128 w2).0

    abbrev w3 : World
    w3 = (kamalloc 48 128 w2).1

    abbrev w4 : World
    w4 = fill_qh kernel async_qh (bit_or async_qh 1) 0x8000 w3

    abbrev w5 : World
    w5 = store32 (add32 op 0x18) async_qh w4

    abbrev periodic_qh : ℕ
    periodic_qh = (kamalloc 48 128 w5).0

    abbrev w6 : World
    w6 = (kamalloc 48 128 w5).1

    abbrev w7 : World
    w7 = fill_qh kernel periodic_qh 0 0 w6

    abbrev w8 : World
    w8 = frames_loop kernel frames periodic_qh 0 1024 w7

    module _ (has_frames : frames ≢ 0) (has_async : async_qh ≢ 0)
        (has_periodic : periodic_qh ≢ 0) where
      abbrev in_frames : (b : ℕ) → Bool
      in_frames b = leb frames b && ltb b (frames + 4096)
