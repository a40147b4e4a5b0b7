-- ===== src/Mm/Kalloc/Free.antt =====
-- `kfree` and the merge that it makes.
use wolf_os.Base.{
  ℕ, zero, suc, ◌+◌, ◌^◌, ◌<◌, ◌≡◌, ◌≢◌, ◌∙◌, sym, refl, inl, inr, true, false, ◌&&◌, [], ◌∷◌,
  Option, none, some, ◌==◌, if◌then◌else◌, arith, Bool-cases, length,
}
use wolf_os.Base.Words.{add32}
use wolf_os.Mm.Kalloc.{
  Ptr, Block, block, Kalloc, Run, ok, put_node, load, store, set_next, set_size, set_used,
  free_block_loop,
}
use wolf_os.Mm.Kalloc.Chain.{Cell, Cells, ChainAt, NotIn, Distinct, total_size, ChainAt-put}
use wolf_os.Mm.Kalloc.Alloc.{load-some}

-- The freed cell takes in every cell behind it, up to the next one that is used.
unfoldable pub absorb : Cell → Cells → Cells
absorb c [] = c ∷ []
absorb c (d ∷ cs) =
    if d.used == 1
    then c ∷ d ∷ cs
    else absorb (record { addr = c.addr; size = c.size + d.size; used = c.used }) cs

-- The list after the used cell that starts at `at` has been freed.
unfoldable pub release : (at start : ℕ) → Cells → Option Cells
release at start [] = none
release at start (c ∷ cs) =
    if (c.used == 1) && (at == start)
    then some (absorb (record { addr = c.addr; size = c.size; used = 0 }) cs)
    else elim (release at (start + c.size) cs) [ none ↦ none | some ds ↦ some (c ∷ ds) ]

-- The size that the counters are changed by.
unfoldable pub released_size : (at start : ℕ) → Cells → ℕ
released_size at start [] = 0
released_size at start (c ∷ cs) =
    if (c.used == 1) && (at == start) then c.size else released_size at (start + c.size) cs

-- What the merge leaves of the globals, and of the memory outside the cells.
pub record Kept (s t : Kalloc) (cs : Cells) : Type 0 where
  pub elsewhere : (x : Ptr) → NotIn x cs → t.node x ≡ s.node x
  pub bytes : t.bytes ≡ s.bytes
  pub allocator_map : t.allocator_map ≡ s.allocator_map
  pub memory_start : t.memory_start ≡ s.memory_start
  pub free_memory : t.free_memory ≡ s.free_memory
  pub claimed_memory : t.claimed_memory ≡ s.claimed_memory
  pub allocations : t.allocations ≡ s.allocations

pub set_next-some :
    (p n : Ptr) (b : Block) (s : Kalloc)
    → p ≢ 0
    → s.node p ≡ some b
    → set_next p n s ≡ ok tt (record s { node = put_node s.node p (record b { next = n }) })
unfolding set_next load store
set_next-some p n b s ne at = ground (arith, at)

pub set_size-some :
    (p n : ℕ) (b : Block) (s : Kalloc)
    → p ≢ 0
    → s.node p ≡ some b
    → set_size p n s ≡ ok tt (record s { node = put_node s.node p (record b { size = n }) })
unfolding set_size load store
set_size-some p n b s ne at = ground (arith, at)

pub set_used-some :
    (p n : ℕ) (b : Block) (s : Kalloc)
    → p ≢ 0
    → s.node p ≡ some b
    → set_used p n s ≡ ok tt (record s { node = put_node s.node p (record b { used = n }) })
unfolding set_used load store
set_used-some p n b s ne at = ground (arith, at)

-- The state after one round of the merge: the block at p has grown by the one at q, which is now at
-- the front of the list of free structures.
abbrev joined : (p q : Ptr) (b d : Block) → Kalloc → Kalloc
joined p q b d s = record s {
  node =
      put_node (put_node s.node p (record b { size = add32 b.size d.size })) q
        (record d { next = s.free_blocks });
  free_blocks = q;
}

free_block_loop-join :
    (fuel : ℕ) (p q : Ptr) (b d : Block) (s : Kalloc)
    → p ≢ 0
    → q ≢ 0
    → q ≢ p
    → s.node p ≡ some b
    → s.node q ≡ some d
    → (d.used == 1) ≡ false
    → free_block_loop (suc fuel) p q s ≡ free_block_loop fuel p d.next (joined p q b d s)
unfolding free_block_loop
free_block_loop-join fuel p q b d s np nq ne ep eq other =
    let e : (q == 0) ≡ false = ground arith in
    let s' : Kalloc = record s {
      node = put_node s.node p (record b { size = add32 b.size d.size });
    } in
    let eq' : s'.node q ≡ some d = ground (arith, eq) in
    rw (
      e,
      load-some q d s nq eq,
      other,
      load-some p b s np ep,
      load-some q d s nq eq,
      set_size-some p (add32 b.size d.size) b s np ep,
      load-some q d s' nq eq',
      set_next-some q s.free_blocks d s' nq eq',
    )

free_block_loop-stop :
    (fuel : ℕ) (p q : Ptr) (b d : Block) (s : Kalloc)
    → p ≢ 0
    → q ≢ 0
    → s.node p ≡ some b
    → s.node q ≡ some d
    → (d.used == 1) ≡ true
    → free_block_loop (suc fuel) p q s
      ≡ ok tt (record s { node = put_node s.node p (record b { next = q }) })
unfolding free_block_loop
free_block_loop-stop fuel p q b d s np nq ep eq used =
    let e : (q == 0) ≡ false = ground arith in
    rw (e, load-some q d s nq eq, used) (set_next-some p q b s np ep)

free_block_loop-end :
    (fuel : ℕ) (p : Ptr) (b : Block) (s : Kalloc)
    → p ≢ 0
    → s.node p ≡ some b
    → free_block_loop (suc fuel) p 0 s
      ≡ ok tt (record s { node = put_node s.node p (record b { next = 0 }) })
unfolding free_block_loop
free_block_loop-end fuel p b s np ep = set_next-some p 0 b s np ep

-- The merge, by induction on the cells behind the freed one.
abbrev pub Merged : Run (Unit {0}) → Kalloc → Cell → Cells → Type 0
Merged run s c cs =
    (t : Kalloc) × (run ≡ ok tt t) × ChainAt t.node c.addr (absorb c cs) × Kept s t (c ∷ cs)

Kept-widen :
    {s t : Kalloc} (p q : Ptr) (b d : Block) (c e f : Cell) (cs : Cells)
    → p ≡ c.addr
    → q ≡ e.addr
    → f.addr ≡ c.addr
    → Kept (joined p q b d s) t (f ∷ cs)
    → Kept s t (c ∷ e ∷ cs)
Kept-widen p q b d c e f cs ep eq ef k = record {
  elsewhere = λ x out. k.elsewhere x (rw ef out.0, out.1.1) ∙ ground (arith, out.0, out.1.0);
  bytes = k.bytes;
  allocator_map = k.allocator_map;
  memory_start = k.memory_start;
  free_memory = k.free_memory;
  claimed_memory = k.claimed_memory;
  allocations = k.allocations;
}

put-Kept :
    (s : Kalloc) (c : Cell) (b : Block) (cs : Cells)
    → Kept s (record s { node = put_node s.node c.addr b }) (c ∷ cs)
put-Kept s c b cs = record {
  elsewhere = λ x out. ground (arith, out.0);
  bytes = refl;
  allocator_map = refl;
  memory_start = refl;
  free_memory = refl;
  claimed_memory = refl;
  allocations = refl;
}

-- The merge ends at a block that is used, whose structure stays.
free_block_loop-Stopped :
    (fuel : ℕ) (s : Kalloc) (c d : Cell) (old after : Ptr) (cs : Cells)
    → c.addr ≢ 0
    → s.node c.addr ≡ some (block c.size c.used old)
    → d.addr ≢ 0
    → s.node d.addr ≡ some (block d.size d.used after)
    → ChainAt s.node after cs
    → NotIn c.addr (d ∷ cs)
    → Distinct (d ∷ cs)
    → (d.used == 1) ≡ true
    → (t : Kalloc) × (free_block_loop (suc fuel) c.addr d.addr s ≡ ok tt t)
      × ChainAt t.node c.addr (c ∷ d ∷ cs)
      × Kept s t (c ∷ d ∷ cs)
free_block_loop-Stopped fuel s c d old after cs ne at nd there rest out dis used = (
  record s { node = put_node s.node c.addr (block c.size c.used d.addr) },
  free_block_loop-stop fuel c.addr d.addr (block c.size c.used old) (block d.size d.used after) s ne
      nd at there used,
  (
    refl,
    ne,
    (
      d.addr,
      ground arith,
      (refl, nd, (after, ground (arith, out.0), ChainAt-put _ after cs c.addr _ out.1 rest)),
    ),
  ),
  put-Kept s c (block c.size c.used d.addr) (d ∷ cs),
)

pub free_block_loop-Merged :
    (fuel : ℕ) (s : Kalloc) (c : Cell) (old next : Ptr) (cs : Cells)
    → c.addr ≢ 0
    → s.node c.addr ≡ some (block c.size c.used old)
    → ChainAt s.node next cs
    → NotIn c.addr cs
    → Distinct cs
    → c.size + total_size cs < 2 ^ 32
    → length cs < fuel
    → Merged (free_block_loop fuel c.addr next s) s c cs
unfolding absorb
free_block_loop-Merged zero s c old next cs ne at h out dis small fu = absurd (omega arith)
free_block_loop-Merged (suc fuel) s c old next [] ne at h out dis small fu =
    let t : Kalloc = record s { node = put_node s.node c.addr (block c.size c.used 0) } in
    (
      t,
      rw h (free_block_loop-end fuel c.addr (block c.size c.used old) s ne at),
      (refl, ne, (0, ground arith, refl)),
      put-Kept s c (block c.size c.used 0) [],
    )
free_block_loop-Merged (suc fuel) s c old next (d ∷ cs) ne at (e, nd, (after, there, rest)) out dis
      small fu =
    rw e (elim (Bool-cases (d.used == 1)) [
      | inl used ↦
          rw used (free_block_loop-Stopped fuel s c d old after cs ne at nd there rest out dis used)
      | inr other ↦
          let b = block c.size c.used old in
          let f = block d.size d.used after in
          let s' : Kalloc = joined c.addr d.addr b f s in
          let grown : Cell = record { addr = c.addr; size = c.size + d.size; used = c.used } in
          let apart : d.addr ≢ c.addr = λ x. out.0 (sym x) in
          let sum : add32 c.size d.size ≡ c.size + d.size = omega arith in
          let at' : s'.node c.addr ≡ some (block (c.size + d.size) c.used old) =
            rw (← sum) (ground (arith, out.0)) in
          let rest' : ChainAt s'.node after cs =
            ChainAt-put _ after cs d.addr _ dis.0 (ChainAt-put _ after cs c.addr _ out.1 rest) in
          let (t, run, chain, kept) =
            free_block_loop-Merged fuel s' grown old after cs ne at' rest' out.1 dis.1 (omega arith)
              (omega arith) in
          rw other (
            t,
            free_block_loop-join fuel c.addr d.addr b f s ne nd apart at there other ∙ run,
            chain,
            Kept-widen c.addr d.addr b f c d grown cs refl refl refl kept,
          )
    ])
