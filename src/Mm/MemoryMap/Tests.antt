-- ===== src/Mm/MemoryMap/Tests.antt =====
-- mm/mem.c: the choice of a region on a small map, and the theorems at it.
use wolf_os.Base.{
  ℕ, ◌+◌, ◌-◌, ◌≡◌, ◌<◌, ◌≤◌, refl, List, [], ◌∷◌, none, some, true, ◌==◌, if◌then◌else◌, arith,
  inl, inr,
}
use wolf_os.Mm.MemoryMap.{
  MapEntry, Region, choose_region, choose_loop, consider, improves, above_kernel, walk_map,
  map_entries, init_memory_manager,
}
use wolf_os.Base.Machine.{Memory}
use wolf_os.Mm.Kalloc.{Kalloc, ok}
use wolf_os.Mm.Kalloc.Init.{first_cells}
use wolf_os.Mm.Kalloc.RoundTrip.{Guarded}
use wolf_os.Mm.Kalloc.FirstFit.{IsHeap}
use wolf_os.Mm.MemoryMap.Handover.{IsSeparated, init_memory_manager-IsHeap}
use wolf_os.Mm.MemoryMap.Choice.{Found, choose_region-IsUsable, choose_region-largest}

-- The globals of the allocator before the kernel starts.
abbrev fresh : Kalloc
fresh = record {
  node = λ _. none;
  bytes = λ _. 0;
  allocator_map = 0;
  free_blocks = 0;
  next_memblock_addr = 0;
  page_depletion = 0;
  free_memory = 0;
  claimed_memory = 0;
  total_memory = 0;
  allocations = 0;
  memory_start = 0;
}

abbrev low_memory : MapEntry
low_memory = record { base_addr = 0; len = 0x9fc00; kind = 1 }

abbrev high_memory : MapEntry
high_memory = record { base_addr = 0x100000; len = 0x6e0123; kind = 1 }

abbrev map8m : List MapEntry
map8m = low_memory ∷ record { base_addr = 0x9fc00; len = 0x400; kind = 2 } ∷ high_memory ∷ []

abbrev chosen8m : Region
chosen8m = record { start = 0x121000; end = 0x7e0000 }

choose_runs : choose_region 0x120010 map8m ≡ some chosen8m
unfolding choose_region choose_loop consider improves above_kernel
choose_runs = refl

choose_region-IsUsable_example :
    (size : ℕ) × (0x7e0000 ≡ 0x121000 + size) × (0 < size) × Found 0x120010 map8m 0x121000 size
choose_region-IsUsable_example =
    choose_region-IsUsable 0x120010 map8m (omega arith) (omega arith) choose_runs

choose_region-largest_example : 0x3000 ≤ 0x7e0000 - 0x121000
choose_region-largest_example =
    choose_region-largest 0x120010 0x200000 0x3000 map8m high_memory (omega arith) (omega arith)
      choose_runs (inr (inr (inl refl))) (omega arith) (omega arith) (omega arith)

-- Two entries at 0x500: a reserved one from 0xf0000 to 0x100000, and behind it 0x6e0000 bytes of memory.
abbrev boot_map : Memory
boot_map a =
    if a == 0x502
    then 0x0f
    else if a == 0x50a
    then 1
    else if a == 0x510
    then 2
    else if a == 0x51a
    then 0x10
    else if a == 0x522
    then 0x6e
    else if a == 0x528
    then 1
    else 0

abbrev boot_entries : List MapEntry
boot_entries =
    record { base_addr = 0xf0000; len = 0x10000; kind = 2 }
    ∷ record { base_addr = 0x100000; len = 0x6e0000; kind = 1 }
    ∷ []

map_entries_example : map_entries boot_map 0x500 2 ≡ boot_entries
unfolding map_entries walk_map
map_entries_example = refl

boot_entries-IsSeparated : IsSeparated boot_entries
boot_entries-IsSeparated e d (inl here) there = λ available. absurd (ground (arith, here))
boot_entries-IsSeparated e d (inr (inl here)) (inl there) =
    λ available reserved. inr (ground (arith, here, there))
boot_entries-IsSeparated e d (inr (inl here)) (inr (inl there)) =
    λ available reserved. absurd (ground (arith, here, there))
boot_entries-IsSeparated e d (inr (inl here)) (inr (inr nothing)) = elim nothing [ ]
boot_entries-IsSeparated e d (inr (inr nothing)) there = elim nothing [ ]

boot_region :
    choose_region 0x120010 boot_entries ≡ some (record { start = 0x121000; end = 0x7e0000 })
unfolding choose_region choose_loop consider improves above_kernel
boot_region = refl

init_memory_manager-IsHeap_example :
    (u : Kalloc) × (init_memory_manager 8 boot_map 0x500 2 0x120010 fresh ≡ ok true u)
    × IsHeap u (first_cells 0x121000 0x7e0000)
    × Guarded (first_cells 0x121000 0x7e0000)
    × (u.memory_start ≡ 0x121000)
    × (u.free_memory ≡ 0x7e0000 - 0x121000 - 4096)
unfolding map_entries walk_map
init_memory_manager-IsHeap_example =
    init_memory_manager-IsHeap 8 boot_map 0x500 2 0x120010 chosen8m fresh (omega arith)
      (omega arith, (omega arith, tt)) boot_entries-IsSeparated boot_region (omega arith) refl refl
      (omega arith)
