-- ===== src/Mm/Kalloc/FirstFit.antt =====
-- `kmalloc` on a list without two free neighbours is first fit.
use wolf_os.Base.{
  ℕ, zero, suc, ◌+◌, ◌^◌, ◌≤◌, ◌<◌, ◌≡◌, ◌≢◌, sym, ap, subst, ◌∙◌, refl, ◌⊎◌, inl, inr, Bool, true,
  false, [], ◌∷◌, Option, none, some, leb, ◌==◌, if◌then◌else◌, arith, Bool-cases, length, ltb,
  ◌&&◌,
}
use wolf_os.Base.Words.{add32, sub32}
use wolf_os.Base.Machine.{Memory, poke}
use wolf_os.Mm.Kalloc.{
  Ptr, Block, block, Kalloc, Run, ok, Cmd, Cursor, follows_used, housekeeping, serve, zero_fill,
  ksmalloc_loop, ksmalloc, kmalloc,
}
use wolf_os.Mm.Kalloc.Chain.{
  Cell, Cells, ChainAt, NotIn, Distinct, head_is_free, NoFreePair, total_size, ChainAt-frame, suits,
  carve, first_fit,
}
use wolf_os.Mm.Kalloc.Alloc.{HasSlot, load-some, Served, serve_whole, serve_part, address_of}

-- The previous block can be read, if there is one.
abbrev Readable : Kalloc → Ptr → Type 0
Readable s p = (p ≡ 0) ⊎ ((b : Block) × (p ≢ 0) × (s.node p ≡ some b))

follows_used-Readable :
    (s : Kalloc) (p : Ptr) → Readable s p → (b : Bool) × (follows_used p s ≡ ok b s)
unfolding follows_used
follows_used-Readable s p (inl e) = (true, rw e)
follows_used-Readable s p (inr (b, ne, at)) =
    let e : (p == 0) ≡ false = ground arith in (b.used == 1, rw (e, load-some p b s ne at))

note-last :
    {s : Kalloc} (c : Cursor) (b : Bool)
    → ok (if b then record c { last_free = c.crt } else c) s
      ≡ ok (record c { last_free = if b then c.crt else c.last_free }) s
note-last c true = refl
note-last c false = refl

-- With nothing to merge `housekeeping` moves only its note of the last free block.
housekeeping_quiet :
    (s : Kalloc) (c : Cursor) (b : Block)
    → c.crt ≢ 0
    → s.node c.crt ≡ some b
    → Readable s c.prev
    → (b.used ≡ 0 → c.last_free ≡ 0)
    → (last : Ptr) × (housekeeping c s ≡ ok (record c { last_free = last }) s)
      × (b.used ≢ 0 → last ≡ 0)
unfolding housekeeping
housekeeping_quiet s c b ne at readable quiet = elim (Bool-cases (b.used == 0)) [
  | inr taken ↦ (0, rw (load-some c.crt b s ne at, taken), λ _. refl)
  | inl free ↦
      let e : (c.last_free == 0) ≡ true = ground (arith, quiet) in
      let (first, read) = follows_used-Readable s c.prev readable in
      (
        if first then c.crt else c.last_free,
        rw (load-some c.crt b s ne at, free, e, read) (note-last c first),
        λ h. absurd (ground arith),
      )
]

zero_fill-zeroed :
    (n : ℕ) (m : Memory) (from a : ℕ)
    → from + n < 2 ^ 32
    → zero_fill m from n a ≡ (if leb from a && ltb a (from + n) then 0 else m a)
unfolding zero_fill
zero_fill-zeroed zero m from a small = ground arith
zero_fill-zeroed (suc n) m from a small =
    let next : add32 from 1 ≡ from + 1 = omega arith in
    rw next (ground (arith, zero_fill-zeroed n (poke m from 0) (from + 1) a (omega arith)))

-- The result and the counters: 0 and an unchanged state without a fit; else the address r, from
-- which n bytes are 0 for a block of mark 1 while no other byte changes, and n bytes counted from free
-- to claimed.
abbrev pub Told : Kalloc → (n mark : ℕ) → Option ℕ → Ptr → Kalloc → Type 0
Told s n mark none r t = (r ≡ 0) × (t ≡ s)
Told s n mark (some at) r t =
    (r ≡ s.memory_start + at)
    × (t.free_memory ≡ sub32 s.free_memory n)
    × (t.claimed_memory ≡ add32 s.claimed_memory n)
    × (t.allocations ≡ add32 s.allocations 1)
    × ((a : ℕ) → t.bytes a ≡ (if (mark == 1) && leb r a && ltb a (r + n) then 0 else s.bytes a))

-- What `kmalloc` has done to the cells from `p` on, which start at the offset `start`: they are
-- carved, the result is the address of the first fit or 0, and nothing else changes.
pub record Allocated (s : Kalloc) (p n mark new start : ℕ) (cs : Cells) (r : Ptr) (t : Kalloc)
    : Type 0 where
  pub chain : ChainAt t.node p (carve n mark new cs)
  pub elsewhere : (x : Ptr) → NotIn x cs → x ≢ new → t.node x ≡ s.node x
  pub result : Told s n mark (first_fit n start cs) r t
  pub memory_start : t.memory_start ≡ s.memory_start
  pub allocator_map : t.allocator_map ≡ s.allocator_map

abbrev cursor : (p prev last start : ℕ) → Cursor
cursor p prev last start = record { crt = p; prev = prev; last_free = last; start = start }

-- The first fit found: the cell in hand suits.
Served-Allocated :
    {s t : Kalloc} (p n mark new start size : ℕ) (next : Ptr) (cs : Cells)
    → (r : Ptr) → r ≡ s.memory_start + start
    → Served s t p new n mark size r next
    → p ≢ 0
    → new ≢ 0
    → new ≢ p
    → NotIn p cs
    → NotIn new cs
    → n ≤ size
    → s.memory_start + start + size < 2 ^ 32
    → ChainAt s.node next cs
    → Allocated s p n mark new start (record { addr = p; size = size; used = 0 } ∷ cs) r t
unfolding carve first_fit
Served-Allocated {s} {t} p n mark new start size next cs r er d ne nn na out nout fits small rest =
    let hit : leb n size ≡ true = ground arith in
    let zeroed : (a : ℕ)
        → t.bytes a ≡ (if (mark == 1) && leb r a && ltb a (r + n) then 0 else s.bytes a) =
      λ a. ap (λ m. m a) d.bytes ∙ elim (Bool-cases (mark == 1)) [
        | inl e ↦ rw e (zero_fill-zeroed n s.bytes r a (omega (arith, er)))
        | inr e ↦ rw e refl
      ] in
    let kept : ChainAt t.node next cs =
      ChainAt-frame next cs
        (λ a inside. d.elsewhere a (λ e. inside (rw e out)) (λ e. inside (rw e nout))) rest in
    record {
      chain = elim (Bool-cases (size == n)) [
        | inl whole ↦ rw (hit, whole) (refl, ne, (next, d.at_block ∙ rw whole, kept))
        | inr part ↦
            rw (hit, part)
              (refl, ne, (new, d.at_block ∙ rw part, (refl, nn, (next, d.at_new part, kept))))
      ];
      elsewhere = λ x o q. d.elsewhere x o.0 q;
      result = rw hit (er, d.free_memory, d.claimed_memory, d.allocations, λ a. zeroed a);
      memory_start = d.memory_start;
      allocator_map = d.allocator_map;
    }

abbrev pub Allocates : Run Ptr → (s : Kalloc) → (p n mark new start : ℕ) → Cells → Type 0
Allocates run s p n mark new start cs =
    (r : Ptr) × (t : Kalloc) × (run ≡ ok r t) × Allocated s p n mark new start cs r t

-- The facts that the walk carries along.
abbrev Quiet : (last : Ptr) → Cells → Type 0
Quiet last cs = (last ≡ 0) ⊎ (head_is_free cs ≡ false)

module _ (page : Cmd Ptr) (n mark new : ℕ) (s : Kalloc) (slot : HasSlot s new) (nn : new ≢ 0)
    (fits : n < 2 ^ 32) where
  abbrev loop : (fuel p prev last start : ℕ) → Run Ptr
  loop fuel p prev last start = ksmalloc_loop page n 0 mark fuel (cursor p prev last start) s

  loop_hit :
      (a prev last start size : ℕ) (next : Ptr) (cs : Cells)
      → a ≢ 0
      → s.node a ≡ some (block size 0 next)
      → NotIn a cs
      → new ≢ a
      → NotIn new cs
      → n ≤ size
      → s.memory_start + start + size < 2 ^ 32
      → ChainAt s.node next cs
      → Allocates
          (serve page n mark (cursor a prev last start) size 0 s)
          s
          a
          n
          mark
          new
          start
          (record { addr = a; size = size; used = 0 } ∷ cs)
  loop_hit a prev last start size next cs ne at out na nout le small rest =
      let c = cursor a prev last start in
      let addr : address_of s c ≡ s.memory_start + start = omega arith in
      elim (Bool-cases (size == n)) [
        | inl whole ↦
            let (t, run, d) =
              serve_whole page n mark new s c size next ne at (ground arith) (omega arith) in
            (
              address_of s c,
              t,
              run,
              Served-Allocated a n mark new start size next cs _ addr d ne nn na out nout le small
                  rest,
            )
        | inr part ↦
            let (t, run, d) =
              serve_part page n mark new s c size next ne at (ground arith) (omega arith) slot nn
                na in
            (
              address_of s c,
              t,
              run,
              Served-Allocated a n mark new start size next cs _ addr d ne nn na out nout le small
                  rest,
            )
      ]

  -- A cell that does not suit is passed.
  Allocated-cons :
      (a start : ℕ) (c : Cell) (next : Ptr) (cs : Cells) {r : Ptr} {t : Kalloc}
      → c.addr ≢ 0
      → s.node c.addr ≡ some (block c.size c.used next)
      → NotIn c.addr cs
      → new ≢ c.addr
      → suits n c ≡ false
      → Allocated s next n mark new (start + c.size) cs r t
      → Allocated s c.addr n mark new start (c ∷ cs) r t
  unfolding carve first_fit
  Allocated-cons a start c next cs ne at out na miss d = record {
    chain = rw miss (refl, ne, (next, d.elsewhere c.addr out (λ e. na (sym e)) ∙ at, d.chain));
    elsewhere = λ x o q. d.elsewhere x o.1 q;
    result = rw miss d.result;
    memory_start = d.memory_start;
    allocator_map = d.allocator_map;
  }

  -- One round at the cell `c`, after `housekeeping`.
  module _ (c : Cell) (next : Ptr) (fuel prev last last' start : ℕ) (ne : c.addr ≢ 0)
      (at : s.node c.addr ≡ some (block c.size c.used next))
      (kept : housekeeping (cursor c.addr prev last start) s
        ≡ ok (cursor c.addr prev last' start) s) where
    here : (c.addr == 0) ≡ false
    here = ground arith

    unpadded : add32 n 0 ≡ n
    unpadded = omega arith

    loop_takes :
        suits n c ≡ true
        → loop (suc fuel) c.addr prev last start
          ≡ serve page n mark (cursor c.addr prev last' start) c.size 0 s
    unfolding ksmalloc_loop
    loop_takes hit =
        rw (here, kept, load-some c.addr (block c.size c.used next) s ne at, unpadded, hit)

    loop_passes :
        suits n c ≡ false
        → loop (suc fuel) c.addr prev last start ≡ loop fuel next c.addr last' (add32 start c.size)
    unfolding ksmalloc_loop
    loop_passes miss =
        rw (here, kept, load-some c.addr (block c.size c.used next) s ne at, unpadded, miss)

  pub loop-Allocates :
      (cs : Cells) (fuel p prev last start : ℕ)
      → ChainAt s.node p cs
      → Distinct cs
      → NoFreePair cs
      → NotIn new cs
      → Readable s prev
      → Quiet last cs
      → length cs < fuel
      → s.memory_start + start + total_size cs < 2 ^ 32
      → Allocates (loop fuel p prev last start) s p n mark new start cs
  unfolding ksmalloc_loop carve first_fit
  loop-Allocates [] zero p prev last start h dis nf out rd q fu small = absurd (omega arith)
  loop-Allocates (c ∷ cs) zero p prev last start h dis nf out rd q fu small = absurd (omega arith)
  loop-Allocates [] (suc fuel) p prev last start h dis nf out rd q fu small = rw h (
    0,
    s,
    refl,
    record {
      chain = refl;
      elsewhere = λ x o e. refl;
      result = (refl, refl);
      memory_start = refl;
      allocator_map = refl;
    },
  )
  loop-Allocates (c ∷ cs) (suc fuel) p prev last start (e, ne, (next, at, rest)) dis nf out rd q fu
        small =
      let quiet : c.used ≡ 0 → last ≡ 0 = λ f. ground (arith, q, f) in
      let (last', kept, cleared) =
        housekeeping_quiet s (cursor c.addr prev last start) (block c.size c.used next) ne at rd
          quiet in
      let apart : new ≢ c.addr = out.0 in
      rw e (elim (Bool-cases (suits n c)) [
        | inl hit ↦ rw (loop_takes c next fuel prev last last' start ne at kept hit) (
            let free : c.used ≡ 0 = ground arith in
            let as_free : record { addr = c.addr; size = c.size; used = 0 } ≡ c =
              λ i. record { addr = c.addr; size = c.size; used = sym free i } in
            subst
              (λ (x : Cell).
                Allocates (serve page n mark (cursor c.addr prev last' start) c.size 0 s) s c.addr n
                  mark new start (x ∷ cs))
              as_free
              (loop_hit c.addr prev last' start c.size next cs ne
                (at ∙ ap (λ (u : ℕ). some (block c.size u next)) free) dis.0 apart out.1
                (ground arith) (omega arith) rest))
        | inr miss ↦
            let tail : Quiet last' cs = elim (Bool-cases (c.used == 0)) [
              | inl free ↦ inr (nf.0 (ground arith))
              | inr taken ↦ inl (cleared (ground arith))
            ] in
            let (r, t, run, d) =
              loop-Allocates cs fuel next c.addr last' (add32 start c.size) rest dis.1 nf.1 out.1
                (inr (block c.size c.used next, ne, at)) tail (omega arith) (omega arith) in
            let sum : add32 start c.size ≡ start + c.size = omega arith in
            (
              r,
              t,
              loop_passes c next fuel prev last last' start ne at kept miss ∙ run,
              Allocated-cons c.addr start c next cs ne at dis.0 apart miss
                  (subst (λ (x : ℕ). Allocated s next n mark new x cs r t) sum d),
            )
      ])

-- The allocator's list is the chain of the cells, which fill the managed memory below 2 ^ 32.
pub record IsHeap (s : Kalloc) (cs : Cells) : Type 0 where
  pub chain : ChainAt s.node s.allocator_map cs
  pub distinct : Distinct cs
  pub bounded : s.memory_start + total_size cs < 2 ^ 32

-- On a list without two free neighbours, and with a structure at `new` for the part that is left
-- over, `kmalloc` returns within one round for each block and one more. It is first fit: the first
-- free block of at least n bytes is cut to n bytes and marked used, what is left of it follows as a
-- free block, its address is returned, and the n bytes from there on are 0 while no other byte changes;
-- with no such block the result is 0 and nothing changes.
pub kmalloc-Allocated :
    (fuel n new : ℕ) (s : Kalloc) (cs : Cells)
    → IsHeap s cs
    → NoFreePair cs
    → HasSlot s new
    → new ≢ 0
    → NotIn new cs
    → n < 2 ^ 32
    → length cs < fuel
    → Allocates (kmalloc fuel n s) s s.allocator_map n 1 new 0 cs
unfolding kmalloc ksmalloc
kmalloc-Allocated fuel n new s cs h quiet slot nn out small fu =
    loop-Allocates (ksmalloc 1 fuel 4096 0 1) n 1 new s slot nn small cs fuel s.allocator_map 0 0 0
      h.chain h.distinct quiet out (inl refl) (inl refl) fu (omega (arith, h.bounded))
