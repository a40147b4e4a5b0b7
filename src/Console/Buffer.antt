-- ===== src/Console/Buffer.antt =====
-- console/console.c, what is kept of the text that is printed. The entries hang together in both
-- directions between `first` and `last`; they are modelled by the list of them from `last` on.
pub mod Kept
pub mod Tests
use wolf_os.Base.{
  ℕ, ◌+◌, ◌-◌, List, [], ◌∷◌, Bool, Option, none, some, ◌>>=◌, leb, ◌==◌, if◌then◌else◌,
}
use wolf_os.Base.Words.{u32}
use wolf_os.Console.Screen.{Screen, gr_renderchar}

abbrev pub min_capacity : ℕ
min_capacity = 4096

-- `struct console_entry` without the links
pub record ConsoleEntry : Type 0 where
  pub charcount : ℕ
  pub data_at : (index : ℕ) → ℕ

-- `struct console`, where the entries begin with `last`
pub record Console : Type 0 where
  pub flags : ℕ
  pub charcount : ℕ
  pub entries : ℕ
  pub from_last : List ConsoleEntry

-- The globals and the machine. The screen is none once a call that prints does not return.
pub record Terminal (World : Type 0) : Type 0 where
  pub active_console : Option Console
  pub screen : Option Screen
  pub world : World

-- What is called of the kernel: the allocator, and the port of the emulator's console.
pub record Kernel (World : Type 0) : Type 0 where
  pub kmalloc : (nbytes : ℕ) → World → ℕ × World
  pub outb : (port chr : ℕ) → World → World

abbrev pub sizeof_entry : ℕ
sizeof_entry = 4108

abbrev pub sizeof_console : ℕ
sizeof_console = 20

-- An entry as `add_entry` fills it in.
abbrev pub empty_entry : ConsoleEntry
empty_entry = record { charcount = 0; data_at = λ i. 0 }

-- `entry->data[entry->charcount++] = chr`
unfoldable pub put_char : (chr : ℕ) → ConsoleEntry → ConsoleEntry
put_char chr e = record {
  charcount = e.charcount + 1;
  data_at = λ i. if i == e.charcount then chr else e.data_at i;
}

-- The last three lines of `putchar`, on the entry `tail` in front of `older`.
unfoldable pub store_char :
    (chr : ℕ) → Console → (tail : ConsoleEntry) → (older : List ConsoleEntry) → Console
store_char chr console tail older = record console {
  charcount = u32 (console.charcount + 1);
  from_last = put_char chr tail ∷ older;
}

module _ {World : Type 0} (kernel : Kernel World) where
  open kernel use {kmalloc, outb}

  -- The console with a new last entry, or none without memory.
  unfoldable pub add_entry : Console → World → Option Console × World
  add_entry console w =
      let (entry, w') = kmalloc sizeof_entry w in
      if entry == 0 then (none, w') else (
        some (record console {
          entries = u32 (console.entries + 1);
          from_last = empty_entry ∷ console.from_last;
        }),
        w',
      )

  -- `tail`, once it is there and has room.
  unfoldable pub room_in :
      Console → World → (from_last : List ConsoleEntry) → Option Console × World
  room_in console w [] = add_entry console w
  room_in console w (tail ∷ older) =
      let added = add_entry console w in
      if leb (min_capacity - 1) tail.charcount then added else (some console, w)

  unfoldable pub store_last : (chr : ℕ) → Console → List ConsoleEntry → Console
  store_last chr console [] = console
  store_last chr console (tail ∷ older) = store_char chr console tail older

  unfoldable pub put_active :
      (capabilities depth chr : ℕ)
      → Console
      → Option Screen
      → Option Console × World
      → Terminal World
  put_active capabilities depth chr console screen (none, w) = record {
    active_console = some console;
    screen = screen;
    world = w;
  }
  put_active capabilities depth chr console screen (some c, w) = record {
    active_console = some (store_last chr c c.from_last);
    screen = screen >>= gr_renderchar capabilities depth chr;
    world = w;
  }

  unfoldable pub putchar_on :
      (capabilities depth chr : ℕ) → Terminal World → Option Console → Terminal World
  putchar_on capabilities depth chr t none = t
  putchar_on capabilities depth chr t (some console) =
      put_active capabilities depth chr console t.screen
        (room_in console (outb 0xe9 chr t.world) console.from_last)

  -- On the text screen. What `memcpy` prints with SSE is shown, but not kept.
  unfoldable pub putchar : (capabilities depth chr : ℕ) → Terminal World → Terminal World
  putchar capabilities depth chr t = putchar_on capabilities depth chr t t.active_console

  -- The record of the console stands for its memory, which the code does not test.
  unfoldable pub init_console : (flags : ℕ) → World → Console × World
  init_console flags w = (
    record { flags = flags; charcount = 0; entries = 0; from_last = [] },
    (kmalloc sizeof_console w).1,
  )

  abbrev pub switch_console : Console → Terminal World → Terminal World
  switch_console console t = record t { active_console = some console }
