-- ===== src/Mm/Kalloc/RoundTrip.antt =====
-- `kmalloc` and then `kfree` of what it gave.
use wolf_os.Base.{
  ℕ, ◌+◌, ◌-◌, ◌^◌, ◌≤◌, ◌<◌, ◌≡◌, ◌≢◌, refl, ap, sym, subst, ◌∙◌, inl, inr, true, false, ◌&&◌, [],
  ◌∷◌, some, ◌==◌, Bool-cases, arith, length,
}
use wolf_os.Base.Words.{u32, add32, sub32}
use wolf_os.Mm.Kalloc.{Kalloc, ok, kmalloc, kfree}
use wolf_os.Mm.Kalloc.Chain.{
  Cell, Cells, NotIn, NoFreePair, total_size, suits, carve, first_fit, Distinct-carve,
  total_size-carve,
}
use wolf_os.Mm.Kalloc.Alloc.{HasSlot}
use wolf_os.Mm.Kalloc.FirstFit.{IsHeap, Told, kmalloc-Allocated}
use wolf_os.Mm.Kalloc.Free.{absorb, release, released_size}
use wolf_os.Mm.Kalloc.Kfree.{Freed, kfree-Frees}

-- The list ends here, or goes on with a block in use.
abbrev pub EndsFree : Cells → Type 0
EndsFree [] = Unit
EndsFree (c ∷ cs) = c.used ≡ 1

-- No block is empty, and behind a free block comes one in use or the end.
abbrev pub Guarded : Cells → Type 0
Guarded [] = Unit
Guarded (c ∷ cs) = (0 < c.size) × (c.used ≡ 0 → EndsFree cs) × Guarded cs

Guarded-NoFreePair : (cs : Cells) → Guarded cs → NoFreePair cs
Guarded-NoFreePair [] g = tt
Guarded-NoFreePair (c ∷ []) g = (λ e. refl, tt)
Guarded-NoFreePair (c ∷ d ∷ cs) (pos, next, g) =
    (λ e. let taken = next e in ground arith, Guarded-NoFreePair (d ∷ cs) g)

absorb-EndsFree : (c : Cell) (cs : Cells) → EndsFree cs → absorb c cs ≡ c ∷ cs
unfolding absorb
absorb-EndsFree c [] e = refl
absorb-EndsFree c (d ∷ cs) e = let taken : (d.used == 1) ≡ true = ground arith in rw taken refl

absorb-free :
    (new n rest a : ℕ) (cs : Cells)
    → EndsFree cs
    → absorb
        (record { addr = a; size = n; used = 0 })
        (record { addr = new; size = rest; used = 0 } ∷ cs)
      ≡ record { addr = a; size = n + rest; used = 0 } ∷ cs
unfolding absorb
absorb-free new n rest a cs end =
    absorb-EndsFree (record { addr = a; size = n + rest; used = 0 }) cs end

as_free : (c : Cell) → c.used ≡ 0 → record { addr = c.addr; size = c.size; used = 0 } ≡ c
as_free c e = λ i. record { addr = c.addr; size = c.size; used = sym e i }

first_fit-between :
    (n start at : ℕ) (cs : Cells)
    → first_fit n start cs ≡ some at
    → (start ≤ at) × (at + n ≤ start + total_size cs)
unfolding first_fit
first_fit-between n start at [] e = cc
first_fit-between n start at (c ∷ cs) e = ground (arith, first_fit-between n (start + c.size) at cs)

length-carve : (n mark new : ℕ) (cs : Cells) → length (carve n mark new cs) ≤ length cs + 1
unfolding carve
length-carve n mark new [] = omega arith
length-carve n mark new (c ∷ cs) = ground (arith, length-carve n mark new cs)

-- The block that was cut, freed again: it has its old size.
release-here :
    (n new start : ℕ) (c : Cell) (cs : Cells)
    → suits n c ≡ true
    → EndsFree cs
    → release start start (carve n 1 new (c ∷ cs)) ≡ some (c ∷ cs)
unfolding release carve
release-here n new start c cs hit end =
    let here : (start == start) ≡ true = ground arith in
    let free : c.used ≡ 0 = ground arith in
    elim (Bool-cases (c.size == n)) [
      | inl whole ↦
          let same : n ≡ c.size = ground arith in
          rw
            (
              hit,
              whole,
              here,
              absorb-EndsFree (record { addr = c.addr; size = n; used = 0 }) cs end,
              same,
            )
            (ap (λ x. some (x ∷ cs)) (as_free c free))
      | inr part ↦
          let sum : n + (c.size - n) ≡ c.size = ground arith in
          rw (hit, part, here, absorb-free new n (c.size - n) c.addr cs end, sum)
            (ap (λ x. some (x ∷ cs)) (as_free c free))
    ]

released_size-here :
    (n new start : ℕ) (c : Cell) (cs : Cells)
    → suits n c ≡ true
    → released_size start start (carve n 1 new (c ∷ cs)) ≡ n
unfolding released_size carve
released_size-here n new start c cs hit =
    let here : (start == start) ≡ true = ground arith in rw (hit, here) refl

release-carve :
    (n new start at : ℕ) (cs : Cells)
    → Guarded cs
    → first_fit n start cs ≡ some at
    → (release at start (carve n 1 new cs) ≡ some cs)
      × (released_size at start (carve n 1 new cs) ≡ n)
unfolding first_fit carve release released_size
release-carve n new start at [] g e = cc
release-carve n new start at (c ∷ cs) (pos, next, g) e = elim (Bool-cases (suits n c)) [
  | inl hit ↦
      let free : c.used ≡ 0 = ground arith in
      let same : start ≡ at = ground arith in
      subst
        (λ x.
          (release x start (carve n 1 new (c ∷ cs)) ≡ some (c ∷ cs))
          × (released_size x start (carve n 1 new (c ∷ cs)) ≡ n))
        same
        (release-here n new start c cs hit (next free), released_size-here n new start c cs hit)
  | inr miss ↦
      let there : first_fit n (start + c.size) cs ≡ some at = sym (rw miss refl) ∙ e in
      let (back, size) = release-carve n new (start + c.size) at cs g there in
      let later = first_fit-between n (start + c.size) at cs there in
      let apart : ((c.used == 1) && (at == start)) ≡ false = ground (arith, later) in
      rw (miss, apart, back, size) (refl, refl)
]

-- On a list where no block is empty and behind each free block comes one in use, a call of `kmalloc`
-- that finds room and then `kfree` of its result both succeed and leave the list as it was, with as
-- many allocations as before. The bytes free are then less by twice the size, and the bytes claimed
-- more by twice the size.
pub kmalloc-kfree :
    (fuel n new at : ℕ) (s : Kalloc) (cs : Cells)
    → IsHeap s cs
    → Guarded cs
    → HasSlot s new
    → new ≢ 0
    → NotIn new cs
    → n < 2 ^ 32
    → length cs + 1 < fuel
    → first_fit n 0 cs ≡ some at
    → (t : Kalloc) × (u : Kalloc) × (kmalloc fuel n s ≡ ok (s.memory_start + at) t)
      × (kfree fuel (s.memory_start + at) t ≡ ok 1 u)
      × IsHeap u cs
      × (u.allocations ≡ u32 s.allocations)
      × (u.free_memory ≡ sub32 (sub32 s.free_memory n) n)
      × (u.claimed_memory ≡ add32 (add32 s.claimed_memory n) n)
kmalloc-kfree fuel n new at s cs h g slot nn out small fu fit =
    let (r, t, run, a) =
      kmalloc-Allocated fuel n new s cs h (Guarded-NoFreePair cs g) slot nn out small
        (omega arith) in
    let told : Told s n 1 (some at) r t = subst (λ o. Told s n 1 o r t) fit a.result in
    let heap : IsHeap t (carve n 1 new cs) = record {
      chain = rw a.allocator_map a.chain;
      distinct = Distinct-carve n 1 new cs h.distinct out;
      bounded = rw (a.memory_start, total_size-carve n 1 new cs) h.bounded;
    } in
    let (r', u, run', f) =
      kfree-Frees fuel (s.memory_start + at) t (carve n 1 new cs) heap
        (omega (arith, length-carve n 1 new cs)) in
    let (back, size) = release-carve n new 0 at cs g fit in
    let place : sub32 (s.memory_start + at) t.memory_start ≡ at =
      omega (arith, a.memory_start, h.bounded, first_fit-between n 0 at cs fit) in
    let cut = carve n 1 new cs in
    let at_place : Freed t t.allocator_map cut (released_size at 0 cut) (release at 0 cut) r' u =
      subst (λ x. Freed t t.allocator_map cut (released_size x 0 cut) (release x 0 cut) r' u) place
        f in
    let sized : Freed t t.allocator_map cut n (release at 0 cut) r' u =
      subst (λ x. Freed t t.allocator_map cut x (release at 0 cut) r' u) size at_place in
    let freed : Freed t t.allocator_map cut n (some cs) r' u =
      subst (λ x. Freed t t.allocator_map cut n x r' u) back sized in
    (
      t,
      u,
      run ∙ ap (λ x. ok x t) told.0,
      run' ∙ ap (λ x. ok x u) freed.0,
      record {
        chain = rw freed.4 freed.1;
        distinct = h.distinct;
        bounded = rw (freed.5, a.memory_start) h.bounded;
      },
      freed.8 ∙ ap (λ x. sub32 x 1) told.3 ∙ omega arith,
      freed.6 ∙ ap (λ x. sub32 x n) told.1,
      freed.7 ∙ ap (λ x. add32 x n) told.2,
    )
