-- ===== src/Mm/Kalloc/Kfree.antt =====
-- `kfree` on the whole list.
use wolf_os.Base.{
  ℕ, zero, suc, ◌+◌, ◌^◌, ◌<◌, ◌≡◌, ◌≢◌, ap, ◌∙◌, refl, inl, inr, true, false, ◌&&◌, [], ◌∷◌,
  Option, none, some, ◌==◌, arith, Bool-cases, length,
}
use wolf_os.Base.Words.{add32, sub32}
use wolf_os.Mm.Kalloc.{Ptr, block, Kalloc, Run, ok, put_node, free_block, kfree_loop, kfree}
use wolf_os.Mm.Kalloc.Chain.{Cell, Cells, ChainAt, NotIn, Distinct, total_size, ChainAt-put}
use wolf_os.Mm.Kalloc.Alloc.{load-some}
use wolf_os.Mm.Kalloc.FirstFit.{IsHeap}
use wolf_os.Mm.Kalloc.Free.{release, released_size, Merged, set_used-some, free_block_loop-Merged}

-- What `kfree` reports and leaves, by whether a used block starts at the offset. The counters are
-- those that the code writes: the size is taken off `free_memory` and added to `claimed_memory`.
abbrev pub Freed :
    Kalloc → (p : Ptr) → Cells → (size : ℕ) → Option Cells → (r : ℕ) → Kalloc → Type 0
Freed s p cs size none r t = (r ≡ 0) × (t ≡ s)
Freed s p cs size (some ds) r t =
    (r ≡ 1)
    × ChainAt t.node p ds
    × ((x : Ptr) → NotIn x cs → t.node x ≡ s.node x)
    × (t.bytes ≡ s.bytes)
    × (t.allocator_map ≡ s.allocator_map)
    × (t.memory_start ≡ s.memory_start)
    × (t.free_memory ≡ sub32 s.free_memory size)
    × (t.claimed_memory ≡ add32 s.claimed_memory size)
    × (t.allocations ≡ sub32 s.allocations 1)

abbrev pub Frees : Run ℕ → Kalloc → (p at start : ℕ) → Cells → Type 0
Frees run s p at start cs =
    (r : ℕ) × (t : Kalloc) × (run ≡ ok r t)
    × Freed s p cs (released_size at start cs) (release at start cs) r t

free_block-Merged :
    (fuel : ℕ) (s : Kalloc) (c : Cell) (next : Ptr) (cs : Cells)
    → c.addr ≢ 0
    → s.node c.addr ≡ some (block c.size c.used next)
    → ChainAt s.node next cs
    → NotIn c.addr cs
    → Distinct cs
    → c.size + total_size cs < 2 ^ 32
    → length cs < fuel
    → Merged
        (free_block fuel c.addr s)
        (record s { node = put_node s.node c.addr (block c.size 0 next) })
        (record { addr = c.addr; size = c.size; used = 0 })
        cs
unfolding free_block
free_block-Merged fuel s c next cs ne at h out dis small fu =
    let b = block c.size 0 next in
    let s' : Kalloc = record s { node = put_node s.node c.addr b } in
    let at' : s'.node c.addr ≡ some b = ground arith in
    rw (set_used-some c.addr 0 (block c.size c.used next) s ne at, load-some c.addr b s' ne at')
      (free_block_loop-Merged fuel s' (record { addr = c.addr; size = c.size; used = 0 }) next next
        cs ne at' (ChainAt-put _ next cs c.addr _ out h) out dis small fu)

abbrev counted : ℕ → Kalloc → Kalloc
counted size s = record s {
  free_memory = sub32 s.free_memory size;
  claimed_memory = add32 s.claimed_memory size;
}

-- The block that is looked for.
kfree_loop-hit :
    (fuel at start : ℕ) (s : Kalloc) (c : Cell) (next : Ptr) (cs : Cells)
    → c.addr ≢ 0
    → s.node c.addr ≡ some (block c.size c.used next)
    → ChainAt s.node next cs
    → NotIn c.addr cs
    → Distinct cs
    → c.size + total_size cs < 2 ^ 32
    → length cs < fuel
    → ((c.used == 1) && (at == start)) ≡ true
    → Frees (kfree_loop (suc fuel) at c.addr start s) s c.addr at start (c ∷ cs)
unfolding kfree_loop release released_size
kfree_loop-hit fuel at start s c next cs ne here h out dis small fu hit =
    let (t, run, chain, kept) =
      free_block-Merged fuel (counted c.size s) c next cs ne here h out dis small fu in
    let e : (c.addr == 0) ≡ false = ground arith in
    rw (e, load-some c.addr (block c.size c.used next) s ne here, hit, run)
      (
        1,
        record t { allocations = sub32 t.allocations 1 },
        refl,
        (
          refl,
          chain,
          λ x o. kept.elsewhere x o ∙ ground (arith, o.0),
          kept.bytes,
          kept.allocator_map,
          kept.memory_start,
          kept.free_memory,
          kept.claimed_memory,
          ap (λ (n : ℕ). sub32 n 1) kept.allocations,
        ),
      )

-- A cell in front of the rest of the list.
Freed-cons :
    (s t : Kalloc) (c : Cell) (next : Ptr) (cs : Cells) (size : ℕ) (after : Option Cells) (r : ℕ)
    → c.addr ≢ 0
    → s.node c.addr ≡ some (block c.size c.used next)
    → NotIn c.addr cs
    → Freed s next cs size after r t
    → Freed s c.addr (c ∷ cs) size (elim after [ none ↦ none | some ds ↦ some (c ∷ ds) ]) r t
Freed-cons s t c next cs size none r ne at out f = f
Freed-cons s t c next cs size (some ds) r ne at out f = (
  f.0,
  (refl, ne, (next, f.2 c.addr out ∙ at, f.1)),
  λ x o. f.2 x o.1,
  f.3,
  f.4,
  f.5,
  f.6,
  f.7,
  f.8,
)

kfree_loop-Frees :
    (cs : Cells) (fuel at p start : ℕ) (s : Kalloc)
    → ChainAt s.node p cs
    → Distinct cs
    → start + total_size cs < 2 ^ 32
    → length cs < fuel
    → Frees (kfree_loop fuel at p start s) s p at start cs
unfolding kfree_loop release released_size
kfree_loop-Frees [] zero at p start s h dis small fu = absurd (omega arith)
kfree_loop-Frees (c ∷ cs) zero at p start s h dis small fu = absurd (omega arith)
kfree_loop-Frees [] (suc fuel) at p start s h dis small fu = rw h (0, s, refl, (refl, refl))
kfree_loop-Frees (c ∷ cs) (suc fuel) at p start s (e, ne, (next, here, rest)) dis small fu =
    rw e (elim (Bool-cases ((c.used == 1) && (at == start))) [
      | inl hit ↦
          kfree_loop-hit fuel at start s c next cs ne here rest dis.0 dis.1 (omega arith)
            (omega arith) hit
      | inr miss ↦
          let sum : add32 start c.size ≡ start + c.size = omega arith in
          let there : (c.addr == 0) ≡ false = ground arith in
          let (r, t, run, freed) =
            kfree_loop-Frees cs fuel at next (start + c.size) s rest dis.1 (omega arith)
              (omega arith) in
          rw (there, load-some c.addr (block c.size c.used next) s ne here, miss, sum)
            (r, t, run, Freed-cons s t c next cs _ _ r ne here dis.0 freed)
    ])

-- `kfree` returns within one round for each block and one more. If a used block starts at the
-- address, the result is 1, the list is the one in which this block is free and has taken in all
-- blocks behind it up to the next one marked used, and nothing else in memory changes; otherwise the
-- result is 0 and nothing changes. The size of the freed block is subtracted from `free_memory`, and
-- added to `claimed_memory`.
pub kfree-Frees :
    (fuel p : ℕ) (s : Kalloc) (cs : Cells)
    → IsHeap s cs
    → length cs < fuel
    → Frees (kfree fuel p s) s s.allocator_map (sub32 p s.memory_start) 0 cs
unfolding kfree
kfree-Frees fuel p s cs h fu =
    kfree_loop-Frees cs fuel (sub32 p s.memory_start) s.allocator_map 0 s h.chain h.distinct
      (omega (arith, h.bounded)) fu
