-- ===== src/Mm/Kalloc/Init.antt =====
-- The heap that `init_kallocator` makes.
use wolf_os.Base.{
  ℕ, ◌+◌, ◌-◌, ◌^◌, ◌<◌, ◌≡◌, refl, subst, inl, true, false, [], ◌∷◌, some, leb, ◌==◌, arith,
}
use wolf_os.Base.Words.{add32, sub32}
use wolf_os.Mm.Kalloc.{
  Ptr, Kalloc, ok, block, put_node, store, ksmalloc, sizeof_block, init_kallocator, call_depth,
}
use wolf_os.Mm.Kalloc.Chain.{Cells, ChainAt, carve, first_fit}
use wolf_os.Mm.Kalloc.Alloc.{HasSlot, fresh}
use wolf_os.Mm.Kalloc.FirstFit.{IsHeap, Told, Allocates, loop-Allocates}
use wolf_os.Mm.Kalloc.RoundTrip.{Guarded}

-- The allocator's own page in front, the rest of the memory free behind it.
abbrev pub first_cells : (lo hi : ℕ) → Cells
first_cells lo hi =
    record { addr = lo; size = 4096; used = 3 }
    ∷ record { addr = lo + sizeof_block; size = hi - lo - 4096; used = 0 }
    ∷ []

abbrev whole : (lo hi : ℕ) → Cells
whole lo hi = record { addr = lo; size = hi - lo; used = 0 } ∷ []

-- The state when the allocator takes its page.
abbrev prepared : (lo hi : ℕ) → Kalloc → Kalloc
prepared lo hi s = record s {
  node = put_node s.node lo (block (sub32 hi lo) 0 0);
  memory_start = lo;
  next_memblock_addr = add32 lo sizeof_block;
  allocator_map = lo;
  page_depletion = add32 s.page_depletion 1;
  free_memory = sub32 hi lo;
  total_memory = sub32 hi lo;
}

init_kallocator-prepared :
    (fuel lo hi : ℕ) (s : Kalloc) (p : Ptr) (u : Kalloc)
    → 0 < lo
    → ksmalloc call_depth fuel 4096 0 3 (prepared lo hi s) ≡ ok p u
    → init_kallocator fuel lo hi s ≡ ok tt u
unfolding init_kallocator store
init_kallocator-prepared fuel lo hi s p u pos run =
    let there : (lo == 0) ≡ false = ground arith in rw (there, run) refl

carve-whole :
    (lo hi : ℕ)
    → lo + 4096 < hi
    → carve 4096 3 (lo + sizeof_block) (whole lo hi) ≡ first_cells lo hi
unfolding carve
carve-whole lo hi room =
    let hit : leb 4096 (hi - lo) ≡ true = ground arith in
    let part : (hi - lo == 4096) ≡ false = ground arith in rw (hit, part) refl

first_fit-whole : (lo hi : ℕ) → lo + 4096 < hi → first_fit 4096 0 (whole lo hi) ≡ some 0
unfolding first_fit
first_fit-whole lo hi room = let hit : leb 4096 (hi - lo) ≡ true = ground arith in rw hit refl

ksmalloc-prepared :
    (fuel lo hi : ℕ) (s : Kalloc)
    → 0 < lo
    → lo + 4096 < hi
    → hi < 2 ^ 32
    → s.free_blocks ≡ 0
    → s.page_depletion ≡ 0
    → 1 < fuel
    → Allocates
        (ksmalloc call_depth fuel 4096 0 3 (prepared lo hi s))
        (prepared lo hi s)
        lo
        4096
        3
        (lo + sizeof_block)
        0
        (whole lo hi)
unfolding ksmalloc
ksmalloc-prepared fuel lo hi s pos room small empty start fu =
    let size : sub32 hi lo ≡ hi - lo = omega arith in
    let slot : HasSlot (prepared lo hi s) (lo + sizeof_block) =
      fresh empty (ground (arith, start)) (omega arith) in
    let here : (prepared lo hi s).node lo ≡ some (block (hi - lo) 0 0) = ground (arith, size) in
    loop-Allocates (ksmalloc 1 fuel 4096 0 1) 4096 3 (lo + sizeof_block) (prepared lo hi s) slot
      (omega arith) (omega arith) (whole lo hi) fuel lo 0 0 0 (refl, omega arith, (0, here, refl))
      (tt, tt) (λ e. refl, tt) (omega arith, tt) (inl refl) (inl refl) (omega arith) (omega arith)

-- On fresh globals and more than a page of memory between two addresses that are not 0 and below
-- 2 ^ 32, `init_kallocator` returns. The list is then a heap of two blocks, neither of them empty: the
-- allocator's own page, and the rest of the memory, which is free and of the size that `free_memory`
-- tells.
pub init_kallocator-IsHeap :
    (fuel lo hi : ℕ) (s : Kalloc)
    → 0 < lo
    → lo + 4096 < hi
    → hi < 2 ^ 32
    → s.free_blocks ≡ 0
    → s.page_depletion ≡ 0
    → 1 < fuel
    → (u : Kalloc) × (init_kallocator fuel lo hi s ≡ ok tt u)
      × IsHeap u (first_cells lo hi)
      × Guarded (first_cells lo hi)
      × (u.memory_start ≡ lo)
      × (u.free_memory ≡ hi - lo - 4096)
init_kallocator-IsHeap fuel lo hi s pos room small empty start fu =
    let (r, u, run, a) = ksmalloc-prepared fuel lo hi s pos room small empty start fu in
    let told : Told (prepared lo hi s) 4096 3 (some 0) r u =
      subst (λ o. Told (prepared lo hi s) 4096 3 o r u) (first_fit-whole lo hi room) a.result in
    let chain = subst (λ l. ChainAt u.node lo l) (carve-whole lo hi room) a.chain in
    (
      u,
      init_kallocator-prepared fuel lo hi s r u pos run,
      record {
        chain = rw a.allocator_map chain;
        distinct = ((omega arith, tt), (tt, tt));
        bounded = omega (arith, a.memory_start);
      },
      (omega arith, (λ e. absurd (omega arith)), (omega arith, (λ e. tt), tt)),
      a.memory_start,
      omega (arith, told.1),
    )
