-- ===== src/Mm/Kalloc/Ownership.antt =====
-- What `kmalloc` promises its callers: the bytes that it hands out were free, and are not handed out
-- again.
use wolf_os.Base.{
  ℕ, ◌+◌, ◌^◌, ◌≤◌, ◌<◌, ◌≡◌, ◌≢◌, refl, ◌⊎◌, inl, inr, true, false, ◌&&◌, Option, none, some, ltb,
  leb, if◌then◌else◌, arith, length,
}
use wolf_os.Mm.Kalloc.{Ptr, Kalloc, ok, kmalloc}
use wolf_os.Mm.Kalloc.Chain.{
  Cells, NotIn, NoFreePair, total_size, carve, first_fit, owned, owned-first_fit, owned-carve,
  total_size-carve, Distinct-carve, carve-none,
}
use wolf_os.Mm.Kalloc.Alloc.{HasSlot}
use wolf_os.Mm.Kalloc.FirstFit.{IsHeap, Told, kmalloc-Allocated}

-- The step of the abstract allocator, a set of owned bytes: either the result is 0 and the set is as
-- it was, or the n bytes from r on were not in the set and join it.
abbrev pub Hands : (s : Kalloc) (n : ℕ) (r : Ptr) (before after : Cells) → Type 0
Hands s n r before after =
    ((r ≡ 0) × (after ≡ before))
    ⊎ ((at : ℕ) × (r ≡ s.memory_start + at)
        × ((o : ℕ) → at ≤ o → o < at + n → owned o 0 before ≡ false)
        × ((o : ℕ)
            → owned o 0 after ≡ (if leb at o && ltb o (at + n) then true else owned o 0 before)))

Told-Hands :
    (s t : Kalloc) (n new : ℕ) (r : Ptr) (cs : Cells) (fit : Option ℕ)
    → first_fit n 0 cs ≡ fit
    → Told s n 1 fit r t
    → Hands s n r cs (carve n 1 new cs)
Told-Hands s t n new r cs none e told = inl (told.0, carve-none n 1 new 0 cs e)
Told-Hands s t n new r cs (some at) e told = inr (
  at,
  told.0,
  λ o lo hi. owned-first_fit n 0 at o cs e lo hi,
  λ o. owned-carve n 1 new 0 at o cs (omega arith) e,
)

-- Under the conditions of first fit, `kmalloc` returns; the list stays a chain of distinct blocks of
-- the same total size; and either the result is 0 and no byte changes hands, or the n bytes at the
-- result were free before, are owned after, and every other byte is owned exactly if it was.
pub kmalloc-Hands :
    (fuel n new : ℕ) (s : Kalloc) (cs : Cells)
    → IsHeap s cs
    → NoFreePair cs
    → HasSlot s new
    → new ≢ 0
    → NotIn new cs
    → n < 2 ^ 32
    → length cs < fuel
    → (r : Ptr) × (t : Kalloc) × (after : Cells) × (kmalloc fuel n s ≡ ok r t)
      × IsHeap t after
      × (total_size after ≡ total_size cs)
      × Hands s n r cs after
kmalloc-Hands fuel n new s cs h quiet slot nn out small fu =
    let (r, t, run, a) = kmalloc-Allocated fuel n new s cs h quiet slot nn out small fu in
    let total = total_size-carve n 1 new cs in
    (
      r,
      t,
      carve n 1 new cs,
      run,
      record {
        chain = rw a.allocator_map a.chain;
        distinct = Distinct-carve n 1 new cs h.distinct out;
        bounded = rw (a.memory_start, total) h.bounded;
      },
      total,
      Told-Hands s t n new r cs (first_fit n 0 cs) refl a.result,
    )
