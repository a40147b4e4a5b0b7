-- ===== src/Mm/Kalloc/Tests.antt =====
-- mm/kalloc.c: runs of the allocator, and the theorems at heaps that meet their conditions.
use wolf_os.Base.{ℕ, ◌+◌, ◌-◌, ◌≡◌, refl, [], ◌∷◌, Option, none, some, arith, ◌↔◌}
use wolf_os.Base.Words.{u32, add32, sub32}
use wolf_os.Mm.Kalloc.{
  Ptr, Block, block, Kalloc, Run, ok, put_node, Cursor, kmalloc, kfree, ksmalloc, ksmalloc_loop,
  serve, cut_block, cut_right, cut_left, mkblock, hand_out, housekeeping, merge_block, follows_used,
  load, store, set_next, set_size, set_used, zero_fill, init_kallocator, kmarkunusable, kfree_loop,
  free_block, free_block_loop, ◌>>=◌,
}
use wolf_os.Mm.Kalloc.Chain.{Cells, total_size, first_fit}
use wolf_os.Mm.Kalloc.Alloc.{HasSlot, fresh}
use wolf_os.Mm.Kalloc.FirstFit.{IsHeap, Allocates, kmalloc-Allocated}
use wolf_os.Mm.Kalloc.Ownership.{Hands, kmalloc-Hands}
use wolf_os.Mm.Kalloc.Kfree.{Frees, kfree-Frees}
use wolf_os.Mm.Kalloc.RoundTrip.{Guarded, kmalloc-kfree}
use wolf_os.Mm.Kalloc.Init.{first_cells, init_kallocator-IsHeap}
use wolf_os.Mm.Kalloc.Merge.{merge_block-start_iff}
use wolf_os.Mm.Kalloc.Mark.{kmarkunusable-beyond}

abbrev no_memory : Kalloc
no_memory = record {
  node = λ _. none;
  bytes = λ _. 7;
  allocator_map = 0;
  free_blocks = 0;
  next_memblock_addr = 0;
  page_depletion = 0;
  free_memory = 0;
  claimed_memory = 0;
  total_memory = 0;
  allocations = 0;
  memory_start = 0;
}

-- The allocator's page and one free block of three pages behind it.
abbrev two_blocks : Kalloc
two_blocks = record no_memory {
  node = put_node (put_node (λ _. none) 0x1000 (block 0x1000 3 0x100c)) 0x100c (block 0x3000 0 0);
  allocator_map = 0x1000;
  next_memblock_addr = 0x1018;
  page_depletion = 2;
  free_memory = 0x3000;
  total_memory = 0x4000;
  allocations = 1;
  memory_start = 0x1000;
}

abbrev two_cells : Cells
two_cells =
    record { addr = 0x1000; size = 0x1000; used = 3 }
    ∷ record { addr = 0x100c; size = 0x3000; used = 0 }
    ∷ []

-- The first two structures, the free memory and the slots taken.
abbrev view : {A : Type 0} → Run A → Option (Option Block × Option Block × ℕ × ℕ)
view (ok a s) = some (s.node 0x1000, s.node 0x100c, s.free_memory, s.page_depletion)
view _ = none

-- `init_kallocator` makes this heap.
init_runs :
    view (init_kallocator 8 0x1000 0x5000 no_memory)
    ≡ some (some (block 0x1000 3 0x100c), some (block 0x3000 0 0), 0x3000, 2)
unfolding init_kallocator store ksmalloc ksmalloc_loop serve cut_block cut_right cut_left mkblock
    hand_out housekeeping follows_used load set_next set_size set_used zero_fill
init_runs = refl

-- An allocation, freed again: the block is whole, and `free_memory` has fallen twice.
round_trip_runs :
    view ((kmalloc 8 64 >>= λ p. kfree 8 p) two_blocks)
    ≡ some (some (block 0x1000 3 0x100c), some (block 0x3000 0 0), 0x2f80, 3)
unfolding kmalloc ksmalloc ksmalloc_loop serve cut_block cut_right cut_left mkblock hand_out
    housekeeping follows_used load store set_next set_size set_used zero_fill kfree kfree_loop
    free_block free_block_loop
round_trip_runs = refl

two_blocks-IsHeap : IsHeap two_blocks two_cells
two_blocks-IsHeap = record {
  chain = (refl, omega arith, (0x100c, refl, (refl, omega arith, (0, refl, refl))));
  distinct = ((omega arith, tt), (tt, tt));
  bounded = omega arith;
}

slot : HasSlot two_blocks 0x1018
slot = fresh refl (omega arith) refl

kmalloc-Allocated_example :
    Allocates (kmalloc 8 64 two_blocks) two_blocks 0x1000 64 1 0x1018 0 two_cells
kmalloc-Allocated_example =
    kmalloc-Allocated 8 64 0x1018 two_blocks two_cells two_blocks-IsHeap
      (λ e. absurd (omega arith), (λ e. refl, tt)) slot (omega arith)
      (omega arith, (omega arith, tt)) (omega arith) (omega arith)

kmalloc-Hands_example :
    (r : Ptr) × (t : Kalloc) × (after : Cells) × (kmalloc 8 64 two_blocks ≡ ok r t)
    × IsHeap t after
    × (total_size after ≡ total_size two_cells)
    × Hands two_blocks 64 r two_cells after
kmalloc-Hands_example =
    kmalloc-Hands 8 64 0x1018 two_blocks two_cells two_blocks-IsHeap
      (λ e. absurd (omega arith), (λ e. refl, tt)) slot (omega arith)
      (omega arith, (omega arith, tt)) (omega arith) (omega arith)

-- The same heap with the second block in use.
abbrev in_use : Kalloc
in_use = record two_blocks {
  node = put_node (put_node (λ _. none) 0x1000 (block 0x1000 3 0x100c)) 0x100c (block 0x3000 1 0);
}

abbrev in_use_cells : Cells
in_use_cells =
    record { addr = 0x1000; size = 0x1000; used = 3 }
    ∷ record { addr = 0x100c; size = 0x3000; used = 1 }
    ∷ []

in_use-IsHeap : IsHeap in_use in_use_cells
in_use-IsHeap = record {
  chain = (refl, omega arith, (0x100c, refl, (refl, omega arith, (0, refl, refl))));
  distinct = ((omega arith, tt), (tt, tt));
  bounded = omega arith;
}

kfree-Frees_example :
    Frees (kfree 8 0x2000 in_use) in_use 0x1000 (sub32 0x2000 0x1000) 0 in_use_cells
kfree-Frees_example = kfree-Frees 8 0x2000 in_use in_use_cells in_use-IsHeap (omega arith)

kmarkunusable-beyond_example : kmarkunusable 8 4096 0x4800 two_blocks ≡ ok tt two_blocks
kmarkunusable-beyond_example =
    kmarkunusable-beyond 8 4096 0x4800 two_blocks two_cells two_blocks-IsHeap (omega arith)
      (omega arith) (omega arith)

-- A block of 96 bytes and one of 64 bytes behind it, both free, that start at the offset 4096.
abbrev neighbours : Kalloc
neighbours = record two_blocks {
  node = put_node (put_node (λ _. none) 0x1018 (block 96 0 0x1024)) 0x1024 (block 64 0 0x1030);
}

abbrev at_second : Cursor
at_second = record { crt = 0x1024; prev = 0x1018; last_free = 0x1018; start = 4192 }

merge_block-start_iff_example :
    (c' : Cursor) × (t : Kalloc) × (merge_block at_second neighbours ≡ ok c' t)
    × (c'.crt ≡ 0x1018)
    × (t.free_blocks ≡ 0x1024)
    × (t.node 0x1018 ≡ some (block 160 0 0x1030))
    × ((c'.start ≡ 4096) ↔ (◌≡◌ {A = ℕ} 96 64))
merge_block-start_iff_example =
    merge_block-start_iff at_second (block 96 0 0x1024) (block 64 0 0x1030) neighbours 4096
      (omega arith) (omega arith) (omega arith) refl refl refl (omega arith)

two_blocks-Guarded : Guarded two_cells
two_blocks-Guarded = (omega arith, (λ e. absurd (omega arith)), (omega arith, (λ e. tt), tt))

fit_of_two : first_fit 64 0 two_cells ≡ some 0x1000
unfolding first_fit
fit_of_two = refl

kmalloc-kfree_example :
    (t : Kalloc) × (u : Kalloc) × (kmalloc 8 64 two_blocks ≡ ok (0x1000 + 0x1000) t)
    × (kfree 8 (0x1000 + 0x1000) t ≡ ok 1 u)
    × IsHeap u two_cells
    × (u.allocations ≡ u32 1)
    × (u.free_memory ≡ sub32 (sub32 0x3000 64) 64)
    × (u.claimed_memory ≡ add32 (add32 0 64) 64)
kmalloc-kfree_example =
    kmalloc-kfree 8 64 0x1018 0x1000 two_blocks two_cells two_blocks-IsHeap two_blocks-Guarded slot
      (omega arith) (omega arith, (omega arith, tt)) (omega arith) (omega arith) fit_of_two

init_kallocator-IsHeap_example :
    (u : Kalloc) × (init_kallocator 8 0x1000 0x5000 no_memory ≡ ok tt u)
    × IsHeap u (first_cells 0x1000 0x5000)
    × Guarded (first_cells 0x1000 0x5000)
    × (u.memory_start ≡ 0x1000)
    × (u.free_memory ≡ 0x5000 - 0x1000 - 4096)
init_kallocator-IsHeap_example =
    init_kallocator-IsHeap 8 0x1000 0x5000 no_memory (omega arith) (omega arith) (omega arith) refl
      refl (omega arith)
