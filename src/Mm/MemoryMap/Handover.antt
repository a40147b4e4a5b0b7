-- ===== src/Mm/MemoryMap/Handover.antt =====
-- `init_memory_manager` from the boot loader's map to the allocator's first list.
use wolf_os.Base.{
  ℕ, ◌+◌, ◌-◌, ◌^◌, ◌≤◌, ◌<◌, ◌≡◌, ◌≢◌, refl, ap, ◌∙◌, ◌⊎◌, inl, inr, true, List, [], ◌∷◌, some,
  ◌==◌, Bool-cases, arith,
}
use wolf_os.Base.Machine.{Memory}
use wolf_os.Mm.Kalloc.{Kalloc, ok}
use wolf_os.Mm.Kalloc.Init.{first_cells, init_kallocator-IsHeap}
use wolf_os.Mm.Kalloc.RoundTrip.{Guarded}
use wolf_os.Mm.Kalloc.FirstFit.{IsHeap}
use wolf_os.Mm.MemoryMap.{
  MapEntry, Region, memory_available, map_entries, choose_region, unusable_in, markings, mark_all,
  give_region, init_memory_manager,
}
use wolf_os.Mm.MemoryMap.Choice.{MemEntry, AllValid, IsUsable, choose_region-IsUsable}

-- No memory of an available entry is in an entry that is not.
abbrev pub AreSeparate : MapEntry → MapEntry → Type 0
AreSeparate e d =
    e.kind ≡ memory_available
    → d.kind ≢ memory_available
    → (e.base_addr + e.len ≤ d.base_addr) ⊎ (d.base_addr + d.len ≤ e.base_addr)

abbrev pub IsSeparated : List MapEntry → Type 0
IsSeparated es = (e d : MapEntry) → MemEntry e es → MemEntry d es → AreSeparate e d

unusable_in-none :
    (e d : MapEntry) (r : Region) (kernel_end size : ℕ)
    → r.end ≡ r.start + size
    → d.base_addr + d.len < 2 ^ 64
    → IsUsable kernel_end e r.start size
    → AreSeparate e d
    → unusable_in r d ≡ []
unfolding unusable_in
unusable_in-none e d r kernel_end size ends valid usable apart = elim (Bool-cases (d.kind == 1)) [
  | inl available ↦ rw available (ground arith)
  | inr reserved ↦ elim (apart usable.available (λ k. absurd (ground arith))) [
    | inl behind ↦ ground arith
    | inr before ↦ ground arith
  ]
]

markings-none :
    (e : MapEntry) (es : List MapEntry) (r : Region) (kernel_end size : ℕ)
    → r.end ≡ r.start + size
    → AllValid es
    → IsUsable kernel_end e r.start size
    → ((d : MapEntry) → MemEntry d es → AreSeparate e d)
    → markings r es ≡ []
unfolding markings
markings-none e [] r kernel_end size ends valid usable apart = refl
markings-none e (d ∷ es) r kernel_end size ends (v, valid) usable apart =
    let none_here = unusable_in-none e d r kernel_end size ends v usable (apart d (inl refl)) in
    rw none_here (markings-none e es r kernel_end size ends valid usable (λ c m. apart c (inr m)))

choose_region-positive :
    (kernel_end : ℕ) (es : List MapEntry) (r : Region)
    → choose_region kernel_end es ≡ some r
    → 0 < r.start
unfolding choose_region
choose_region-positive kernel_end es r h = ground arith

-- Let the entries of the map end below 2 ^ 64, let no available one share memory with one that is not,
-- and let the region that is found be larger than a page. On fresh globals `init_memory_manager` then
-- returns without a panic, and the allocator's list is a heap of two blocks: its own page at the start
-- of the region, and the rest of the region, which is free.
pub init_memory_manager-IsHeap :
    (fuel : ℕ) (m : Memory) (mmap_base mmap_entries kernel_end : ℕ) (r : Region) (s : Kalloc)
    → kernel_end < 2 ^ 32
    → AllValid (map_entries m mmap_base mmap_entries)
    → IsSeparated (map_entries m mmap_base mmap_entries)
    → choose_region kernel_end (map_entries m mmap_base mmap_entries) ≡ some r
    → r.start + 4096 < r.end
    → s.free_blocks ≡ 0
    → s.page_depletion ≡ 0
    → 1 < fuel
    → (u : Kalloc) × (init_memory_manager fuel m mmap_base mmap_entries kernel_end s ≡ ok true u)
      × IsHeap u (first_cells r.start r.end)
      × Guarded (first_cells r.start r.end)
      × (u.memory_start ≡ r.start)
      × (u.free_memory ≡ r.end - r.start - 4096)
unfolding init_memory_manager mark_all
init_memory_manager-IsHeap fuel m base n kernel_end r s small valid apart chosen room empty start
      fu =
    let es = map_entries m base n in
    let (size, ends, pos, (e, here, usable)) =
      choose_region-IsUsable kernel_end es small valid chosen in
    let positive : 0 < r.start = choose_region-positive kernel_end es r chosen in
    let (u, run, heap, guarded, at, free) =
      init_kallocator-IsHeap fuel r.start r.end s positive room (omega arith) empty start fu in
    let unmarked : markings r es ≡ [] =
      markings-none e es r kernel_end size ends valid usable (λ d there. apart e d here there) in
    let given : give_region fuel es (some r) s ≡ ok true u = rw (run, unmarked) refl in
    (u, ap (λ o. give_region fuel es o s) chosen ∙ given, heap, guarded, at, free)
