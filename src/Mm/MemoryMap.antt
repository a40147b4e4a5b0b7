-- ===== src/Mm/MemoryMap.antt =====
-- mm/mem.c, `init_memory_manager`: the memory that the allocator is given, and the regions in it that
-- it is told not to use. A 64-bit sum wraps as in C; the entries are those that the walk over the
-- boot loader's map reads.
pub mod Choice
pub mod Handover
pub mod Tests
use wolf_os.Mm.Kalloc.{Cmd, pure, ◌>>=◌, ◌>>◌, kmarkunusable, init_kallocator}
use wolf_os.Base.{
  ℕ, zero, suc, ◌+◌, ◌-◌, ◌*◌, ◌^◌, bit_and, Bool, true, false, ◌&&◌, ◌||◌, not, List, [], ◌∷◌,
  ◌++◌, Option, none, some, ltb, leb, ◌==◌, if◌then◌else◌,
}
use wolf_os.Base.Words.{u32, u64, add32, sub32, mul32}
use wolf_os.Base.Machine.{Memory, read32, read64}

-- `struct mmap_entry`, packed: 24 bytes with a reserved word at the end
pub record MapEntry : Type 0 where
  pub base_addr : ℕ
  pub len : ℕ
  pub kind : ℕ

abbrev pub memory_available : ℕ
memory_available = 1

abbrev pub sizeof_map_entry : ℕ
sizeof_map_entry = 24

abbrev pub entry_at : Memory → ℕ → MapEntry
entry_at m p = record { base_addr = read64 m p; len = read64 m (p + 8); kind = read32 m (p + 16) }

-- `while (p < map_end)`, which also ends where the address wraps.
pub walk_map : Memory → (fuel map_end p : ℕ) → List MapEntry
walk_map m zero map_end p = []
walk_map m (suc fuel) map_end p =
    let next_p = add32 p sizeof_map_entry in
    let rest = walk_map m fuel map_end next_p in
    if ltb p map_end then entry_at m p ∷ (if leb next_p p then [] else rest) else []

-- The entries from `mmap_base` on; the walk visits at most `mmap_entries` of them.
pub map_entries : Memory → (mmap_base mmap_entries : ℕ) → List MapEntry
map_entries m base n = walk_map m n (add32 base (mul32 n sizeof_map_entry)) base

abbrev pub floor_page : ℕ → ℕ
floor_page addr = bit_and addr 0xffff_f000

abbrev pub ceil_page : ℕ → ℕ
ceil_page addr = bit_and (add32 addr 0xfff) 0xffff_f000

pub record Region : Type 0 where
  pub start : ℕ
  pub end : ℕ

abbrev pub nowhere : Region
nowhere = record { start = 0; end = 0 }

-- `base + len` cut to 32 bits: what lies beyond 4 GiB makes it 0.
abbrev pub entry_end : MapEntry → ℕ
entry_end e =
    let end64 = u64 (e.base_addr + e.len) in u32 (if ltb (2 ^ 32) end64 then 2 ^ 32 else end64)

-- The part of an entry above the kernel. The test `end > 0xFFFFFFFF` of a 32-bit value never holds.
pub above_kernel : (kernel_end : ℕ) → MapEntry → Region
above_kernel kernel_end e =
    let start = u32 e.base_addr in
    let end = entry_end e in
    let overlap = sub32 kernel_end start in
    if ltb start kernel_end && ltb kernel_end end
    then (if ltb overlap e.len
        then record { start = add32 start overlap; end = u32 (u64 (e.base_addr + e.len)) }
        else nowhere)
    else if leb end kernel_end
    then nowhere
    else record { start = start; end = end }

abbrev pub to_pages : Region → Region
to_pages r = record { start = ceil_page r.start; end = floor_page r.end }

-- The start and the size of the largest region so far.
pub record Best : Type 0 where
  pub start : ℕ
  pub size : ℕ

-- The conditions under which an entry replaces the best region.
pub improves : (kernel_end : ℕ) → MapEntry → Best → Bool
improves kernel_end e best =
    let r = above_kernel kernel_end e in
    let p = to_pages r in
    (e.kind == memory_available)
    && ltb 0 e.len
    && ltb e.base_addr (2 ^ 32)
    && ltb r.start r.end
    && ltb p.start p.end
    && ltb best.size (sub32 p.end p.start)

pub consider : (kernel_end : ℕ) → MapEntry → Best → Best
consider kernel_end e best =
    let p = to_pages (above_kernel kernel_end e) in
    if improves kernel_end e best
    then record { start = p.start; size = sub32 p.end p.start }
    else best

pub choose_loop : (kernel_end : ℕ) → List MapEntry → Best → Best
choose_loop kernel_end [] best = best
choose_loop kernel_end (e ∷ es) best = choose_loop kernel_end es (consider kernel_end e best)

-- The bounds handed to `init_kallocator`; `none` is the panic.
pub choose_region : (kernel_end : ℕ) → List MapEntry → Option Region
choose_region kernel_end es =
    let best = choose_loop kernel_end es (record { start = 0; size = 0 }) in
    if (best.start == 0) || (best.size == 0)
    then none
    else some (record { start = best.start; end = add32 best.start best.size })

-- The calls of `kmarkunusable` that the second walk makes, in order.
pub record Marking : Type 0 where
  pub nbytes : ℕ
  pub cut_from : ℕ

pub unusable_in : (alloc : Region) → MapEntry → List Marking
unusable_in alloc e =
    let start = u32 e.base_addr in
    let end = entry_end e in
    let mark_start = if ltb start alloc.start then alloc.start else start in
    let mark_end = if ltb alloc.end end then alloc.end else end in
    if ltb 0 e.len
      && ltb e.base_addr (2 ^ 32)
      && ltb start end
      && ltb mark_start mark_end
      && not (e.kind == memory_available)
    then record { nbytes = sub32 mark_end mark_start; cut_from = mark_start } ∷ []
    else []

pub markings : (alloc : Region) → List MapEntry → List Marking
markings alloc [] = []
markings alloc (e ∷ es) = unusable_in alloc e ++ markings alloc es

pub mark_all : (fuel : ℕ) → List Marking → Cmd (Unit {0})
mark_all fuel [] = pure tt
mark_all fuel (k ∷ ks) = do kmarkunusable fuel k.nbytes k.cut_from; mark_all fuel ks

-- From the panic on, of which the result is false.
abbrev pub give_region : (fuel : ℕ) → List MapEntry → Option Region → Cmd Bool
give_region fuel es none = pure false
give_region fuel es (some r) = do
  init_kallocator fuel r.start r.end
  mark_all fuel (markings r es)
  pure true

-- The whole function on the allocator's state.
pub init_memory_manager : (fuel : ℕ) → Memory → (mmap_base mmap_entries kernel_end : ℕ) → Cmd Bool
init_memory_manager fuel m base n kernel_end =
    let es = map_entries m base n in give_region fuel es (choose_region kernel_end es)
