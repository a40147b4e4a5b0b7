-- ===== src/Mm/Kalloc/Chain.antt =====
-- The block list as a chain of blocks in memory, and what the operations mean on the list.
use wolf_os.Base.{
  ℕ, ◌+◌, ◌-◌, ◌≡◌, ◌≢◌, ◌∙◌, ◌≤◌, ◌<◌, refl, Bool, true, false, not, ◌&&◌, List, [], ◌∷◌, Option,
  none, some, ltb, leb, ◌==◌, if◌then◌else◌, arith, Bool-cases, inl, inr, sym,
}
use wolf_os.Mm.Kalloc.{Ptr, Block, block, put_node}

-- A block of the list: where its structure is, its size and its mark.
pub record Cell : Type 0 where
  pub addr : Ptr
  pub size : ℕ
  pub used : ℕ

abbrev pub Cells : Type 0
Cells = List Cell

-- From `p` the `next` pointers lead through the structures of the cells to the null pointer.
abbrev pub ChainAt : (Ptr → Option Block) → Ptr → Cells → Type 0
ChainAt f p [] = p ≡ 0
ChainAt f p (c ∷ cs) =
    (p ≡ c.addr)
    × (c.addr ≢ 0)
    × ((next : Ptr) × (f c.addr ≡ some (block c.size c.used next)) × ChainAt f next cs)

abbrev pub NotIn : Ptr → Cells → Type 0
NotIn a [] = Unit
NotIn a (c ∷ cs) = (a ≢ c.addr) × NotIn a cs

-- No structure serves two cells.
abbrev pub Distinct : Cells → Type 0
Distinct [] = Unit
Distinct (c ∷ cs) = NotIn c.addr cs × Distinct cs

abbrev pub head_is_free : Cells → Bool
head_is_free [] = false
head_is_free (c ∷ cs) = c.used == 0

-- No two free cells stand side by side, so that `ksmalloc` has nothing to merge.
abbrev pub NoFreePair : Cells → Type 0
NoFreePair [] = Unit
NoFreePair (c ∷ cs) = ((c.used ≡ 0) → head_is_free cs ≡ false) × NoFreePair cs

abbrev pub total_size : Cells → ℕ
total_size [] = 0
total_size (c ∷ cs) = c.size + total_size cs

-- A change outside the cells leaves the chain.
pub ChainAt-frame :
    {f g : Ptr → Option Block} (p : Ptr) (cs : Cells)
    → ((a : Ptr) → (NotIn a cs → ⊥) → g a ≡ f a)
    → ChainAt f p cs
    → ChainAt g p cs
ChainAt-frame p [] same h = h
ChainAt-frame p (c ∷ cs) same (e, ne, (next, at, rest)) = (
  e,
  ne,
  (
    next,
    same c.addr (λ out. out.0 refl) ∙ at,
    ChainAt-frame next cs (λ a inside. same a (λ out. inside out.1)) rest,
  ),
)

pub ChainAt-put :
    (f : Ptr → Option Block) (p : Ptr) (cs : Cells) (a : Ptr) (b : Block)
    → NotIn a cs
    → ChainAt f p cs
    → ChainAt (put_node f a b) p cs
ChainAt-put f p [] a b out h = h
ChainAt-put f p (c ∷ cs) a b out (e, ne, (next, at, rest)) =
    (e, ne, (next, ground (arith, out.0), ChainAt-put f next cs a b out.1 rest))

-- First fit with no alignment: the first free cell of at least n bytes is cut to n bytes, and what
-- is left of it is a free cell at `new`.
abbrev pub suits : ℕ → Cell → Bool
suits n c = (c.used == 0) && leb n c.size

unfoldable pub carve : (n mark : ℕ) (new : Ptr) → Cells → Cells
carve n mark new [] = []
carve n mark new (c ∷ cs) =
    if suits n c
    then record { addr = c.addr; size = n; used = mark }
      ∷ (if c.size == n then cs else record { addr = new; size = c.size - n; used = 0 } ∷ cs)
    else c ∷ carve n mark new cs

-- Where the first such cell starts, the sizes before it added up.
unfoldable pub first_fit : (n start : ℕ) → Cells → Option ℕ
first_fit n start [] = none
first_fit n start (c ∷ cs) = if suits n c then some start else first_fit n (start + c.size) cs

pub total_size-carve :
    (n mark : ℕ) (new : Ptr) (cs : Cells) → total_size (carve n mark new cs) ≡ total_size cs
unfolding carve
total_size-carve n mark new [] = refl
total_size-carve n mark new (c ∷ cs) = ground (arith, total_size-carve n mark new cs)

-- Whether the byte at an offset belongs to a block that is not free.
unfoldable pub owned : (offset start : ℕ) → Cells → Bool
owned o start [] = false
owned o start (c ∷ cs) =
    if leb start o && ltb o (start + c.size) then not (c.used == 0) else owned o (start + c.size) cs

le-first_fit : (n start at : ℕ) (cs : Cells) → first_fit n start cs ≡ some at → start ≤ at
unfolding first_fit
le-first_fit n start at [] e = cc
le-first_fit n start at (c ∷ cs) e = ground (arith, le-first_fit n (start + c.size) at cs)

-- The bytes of the first fit are free.
pub owned-first_fit :
    (n start at o : ℕ) (cs : Cells)
    → first_fit n start cs ≡ some at
    → at ≤ o
    → o < at + n
    → owned o start cs ≡ false
unfolding first_fit owned
owned-first_fit n start at o [] e lo hi = cc
owned-first_fit n start at o (c ∷ cs) e lo hi =
    ground
      (arith, owned-first_fit n (start + c.size) at o cs, le-first_fit n (start + c.size) at cs)

-- After the cut they are owned, and no other byte has changed hands.
pub owned-carve :
    (n mark new start at o : ℕ) (cs : Cells)
    → mark ≢ 0
    → first_fit n start cs ≡ some at
    → owned o start (carve n mark new cs)
      ≡ (if leb at o && ltb o (at + n) then true else owned o start cs)
unfolding first_fit owned carve
owned-carve n mark new start at o [] ne e = cc
owned-carve n mark new start at o (c ∷ cs) ne e =
    ground (
      arith,
      owned-carve n mark new (start + c.size) at o cs,
      le-first_fit n (start + c.size) at cs,
    )

NotIn-carve : (a n mark new : ℕ) (cs : Cells) → NotIn a cs → a ≢ new → NotIn a (carve n mark new cs)
unfolding carve
NotIn-carve a n mark new [] out ne = tt
NotIn-carve a n mark new (c ∷ cs) out ne = elim (Bool-cases (suits n c)) [
  | inr miss ↦ rw miss (out.0, NotIn-carve a n mark new cs out.1 ne)
  | inl hit ↦ elim (Bool-cases (c.size == n)) [
    | inl whole ↦ rw (hit, whole) out
    | inr part ↦ rw (hit, part) (out.0, (ne, out.1))
  ]
]

-- The cut keeps the structures apart.
pub Distinct-carve :
    (n mark new : ℕ) (cs : Cells) → Distinct cs → NotIn new cs → Distinct (carve n mark new cs)
unfolding carve
Distinct-carve n mark new [] d out = tt
Distinct-carve n mark new (c ∷ cs) d out = elim (Bool-cases (suits n c)) [
  | inr miss ↦ rw miss (
    NotIn-carve c.addr n mark new cs d.0 (λ e. out.0 (sym e)),
    Distinct-carve n mark new cs d.1 out.1,
  )
  | inl hit ↦ elim (Bool-cases (c.size == n)) [
    | inl whole ↦ rw (hit, whole) d
    | inr part ↦ rw (hit, part) ((λ e. out.0 (sym e), d.0), (out.1, d.1))
  ]
]

-- Without a fit nothing is cut.
pub carve-none :
    (n mark new start : ℕ) (cs : Cells) → first_fit n start cs ≡ none → carve n mark new cs ≡ cs
unfolding carve first_fit
carve-none n mark new start [] e = refl
carve-none n mark new start (c ∷ cs) e = ground (arith, carve-none n mark new (start + c.size) cs)
