-- ===== src/Mm/Kalloc.antt =====
-- mm/kalloc.c: the block list of the allocator and the functions on it. A `struct memory_block`
-- lives at an address; `node` holds the blocks, and `bytes` the memory that is handed out. The two
-- are kept apart: a read of an address at which no block was ever made is a fault.
pub mod Chain
pub mod Alloc
pub mod FirstFit
pub mod Ownership
pub mod Free
pub mod Kfree
pub mod RoundTrip
pub mod Init
pub mod Merge
pub mod Mark
pub mod Tests
use wolf_os.Base.{
  ℕ, zero, suc, ◌-◌, ◌%◌, Bool, true, ◌&&◌, ◌||◌, Option, none, some, leb, ◌==◌, if◌then◌else◌,
}
use wolf_os.Base.Words.{add32, sub32}
use wolf_os.Base.Machine.{Memory, poke}

abbrev pub Ptr : Type 0
Ptr = ℕ

-- `struct memory_block`; `used` is 0 free, 1 used, 2 unusable, 3 required by the allocator.
pub record Block : Type 0 where
  pub size : ℕ
  pub used : ℕ
  pub next : Ptr

abbrev pub block : (size used : ℕ) → Ptr → Block
block s u n = record { size = s; used = u; next = n }

-- The globals of the file and the memory. `memory_start` is where the managed memory starts.
pub record Kalloc : Type 0 where
  pub node : Ptr → Option Block
  pub bytes : Memory
  pub allocator_map : Ptr
  pub free_blocks : Ptr
  pub next_memblock_addr : Ptr
  pub page_depletion : ℕ
  pub free_memory : ℕ
  pub claimed_memory : ℕ
  pub total_memory : ℕ
  pub allocations : ℕ
  pub memory_start : ℕ

abbrev pub memblocks_per_page : ℕ
memblocks_per_page = 32

-- Four bytes, one byte and three of padding, and a pointer.
abbrev pub sizeof_block : ℕ
sizeof_block = 12

-- A run ends with a result and a state, by an access that C leaves undefined, or without fuel.
pub data Run (A : Type 0) : Type 0 where
  ok : A → Kalloc → Run A
  fault : Run A
  out_of_fuel : Run A

abbrev pub Cmd : Type 0 → Type 0
Cmd A = Kalloc → Run A

module _ {A B : Type 0} where
  abbrev pub and_then : Run A → (A → Cmd B) → Run B
  and_then (ok a s) k = k a s
  and_then fault k = fault
  and_then out_of_fuel k = out_of_fuel

  infixl 5 ◌>>=◌ ◌>>◌
  abbrev pub ◌>>=◌ : Cmd A → (A → Cmd B) → Cmd B
  m >>= k = λ s. and_then (m s) k

  abbrev pub ◌>>◌ : Cmd A → Cmd B → Cmd B
  m >> k = m >>= λ _. k

abbrev pub pure : {A : Type 0} → A → Cmd A
pure = ok

abbrev pub get : Cmd Kalloc
get s = ok s s

abbrev pub modify : (Kalloc → Kalloc) → Cmd (Unit {0})
modify f s = ok tt (f s)

abbrev pub put_node : (Ptr → Option Block) → Ptr → Block → Ptr → Option Block
put_node f p b q = if q == p then some b else f q

-- `*p`
unfoldable pub load : Ptr → Cmd Block
load p s = if p == 0 then fault else elim (s.node p) [ none ↦ fault | some b ↦ ok b s ]

-- `*p = b`, at an address that need not hold a block yet
unfoldable pub store : Ptr → Block → Cmd (Unit {0})
store p b s = if p == 0 then fault else ok tt (record s { node = put_node s.node p b })

unfoldable pub set_next : (p n : Ptr) → Cmd (Unit {0})
set_next p n = do b ← load p; store p (record b { next = n })

unfoldable pub set_size : Ptr → ℕ → Cmd (Unit {0})
set_size p n = do b ← load p; store p (record b { size = n })

unfoldable pub set_used : Ptr → ℕ → Cmd (Unit {0})
set_used p u = do b ← load p; store p (record b { used = u })

pub get_free_mem_bytes : Cmd ℕ
get_free_mem_bytes s = ok s.free_memory s

pub get_total_mem_bytes : Cmd ℕ
get_total_mem_bytes s = ok s.total_memory s

-- `next_memblock_addr += sizeof(struct memory_block); page_depletion++`
abbrev pub take_slot : Cmd Ptr
take_slot s = ok s.next_memblock_addr (record s {
  next_memblock_addr = add32 s.next_memblock_addr sizeof_block;
  page_depletion = add32 s.page_depletion 1;
})

-- `page` is the call `kmalloc(4096)`.
unfoldable pub mkblock : (page : Cmd Ptr) → Cmd Ptr
mkblock page s =
    if s.free_blocks == 0
    then (if s.page_depletion == memblocks_per_page
          then (do
            modify (λ t. record t { page_depletion = 0 })
            addr ← page
            modify (λ t. record t { next_memblock_addr = addr })
            take_slot)
          else take_slot)
        s
    else (do
      b ← load s.free_blocks
      modify (λ t. record t { free_blocks = b.next })
      pure s.free_blocks)
        s

-- The free block to the right of the one that is cut.
unfoldable pub cut_right : (page : Cmd Ptr) → Ptr → ℕ → Cmd (Unit {0})
cut_right page p right = do
  new ← mkblock page
  b ← load p
  store new (block right 0 b.next)
  set_next p new

unfoldable pub cut_left : (page : Cmd Ptr) → (prev p : Ptr) → ℕ → Cmd (Unit {0})
cut_left page prev p left = do new ← mkblock page; store new (block left 0 p); set_next prev new

unfoldable pub cut_block :
    (page : Cmd Ptr) → (prev p : Ptr) → (left used right mark : ℕ) → Cmd (Unit {0})
cut_block page prev p left used right mark = do
  (if right == 0 then pure tt else cut_right page p right)
  (if left == 0 then pure tt else cut_left page prev p left)
  set_size p used
  set_used p mark

-- The three pointers and the offset that the loop of `ksmalloc` carries.
pub record Cursor : Type 0 where
  pub crt : Ptr
  pub prev : Ptr
  pub last_free : Ptr
  pub start : ℕ

-- The merge of a free block into the free block before it. The offset falls by the size of the
-- merged block.
unfoldable pub merge_block : Cursor → Cmd Cursor
merge_block c = do
  b ← load c.crt
  set_next c.last_free b.next
  l ← load c.last_free
  b ← load c.crt
  set_size c.last_free (add32 l.size b.size)
  b ← load c.crt
  s ← get
  set_next c.crt s.free_blocks
  modify (λ t. record t { free_blocks = c.crt })
  pure (record c { crt = c.last_free; start = sub32 c.start b.size })

-- `prev_block == 0 || prev_block->used == 1`
unfoldable pub follows_used : Ptr → Cmd Bool
follows_used prev = if prev == 0 then pure true else (do b ← load prev; pure (b.used == 1))

unfoldable pub housekeeping : Cursor → Cmd Cursor
housekeeping c = do
  b ← load c.crt
  if b.used == 0
      then (do
        c ← (if c.last_free == 0 then pure c else merge_block c)
        first ← follows_used c.prev
        pure (if first then record c { last_free = c.crt } else c))
      else pure (record c { last_free = 0 })

abbrev pub offset_required : (align start : ℕ) → ℕ
offset_required align start =
    if (align == 0) || (start % align == 0) then 0 else align - start % align

-- `for (i = 0; i < nbytes; i++) ((char*)from)[i] = 0`, with the bytes that are left
unfoldable pub zero_fill : Memory → (from left : ℕ) → Memory
zero_fill m from zero = m
zero_fill m from (suc n) = zero_fill (poke m from 0) (add32 from 1) n

-- What follows a successful cut.
unfoldable pub hand_out : (nbytes mark addr : ℕ) → Cmd Ptr
hand_out nbytes mark addr = do
  modify (λ t. record t {
    allocations = add32 t.allocations 1;
    free_memory = sub32 t.free_memory nbytes;
    claimed_memory = add32 t.claimed_memory nbytes;
    bytes = if mark == 1 then zero_fill t.bytes addr nbytes else t.bytes;
  })
  pure addr

-- The block under the cursor is cut and handed out.
unfoldable pub serve : (page : Cmd Ptr) → (nbytes mark : ℕ) → Cursor → (size offset : ℕ) → Cmd Ptr
serve page nbytes mark c size offset = do
  cut_block page c.prev c.crt offset nbytes (sub32 (sub32 size nbytes) offset) mark
  s ← get
  hand_out nbytes mark (add32 (add32 s.memory_start offset) c.start)

-- The loop of `ksmalloc`; `page` serves `mkblock`, and `fuel` bounds the rounds.
unfoldable pub ksmalloc_loop : (page : Cmd Ptr) → (nbytes align mark fuel : ℕ) → Cursor → Cmd Ptr
ksmalloc_loop page nbytes align mark zero c = λ _. out_of_fuel
ksmalloc_loop page nbytes align mark (suc fuel) c =
    let round = (do
      c ← housekeeping c
      b ← load c.crt
      if (b.used == 0) && leb (add32 nbytes (offset_required align c.start)) b.size
          then serve page nbytes mark c b.size (offset_required align c.start)
          else ksmalloc_loop page nbytes align mark fuel (record {
            crt = b.next;
            prev = c.crt;
            last_free = c.last_free;
            start = add32 c.start b.size;
          })) in
    if c.crt == 0 then pure 0 else round

-- `depth` bounds how often `mkblock` calls `kmalloc` again. A call of depth 1 finds its slots on
-- the page: the outer one has set `page_depletion` to 0.
unfoldable pub ksmalloc : (depth fuel nbytes align mark : ℕ) → Cmd Ptr
ksmalloc zero fuel nbytes align mark = λ _. out_of_fuel
ksmalloc (suc depth) fuel nbytes align mark = do
  s ← get
  ksmalloc_loop (ksmalloc depth fuel 4096 0 1) nbytes align mark fuel
      (record { crt = s.allocator_map; prev = 0; last_free = 0; start = 0 })

abbrev pub call_depth : ℕ
call_depth = 2

unfoldable pub kmalloc : (fuel nbytes : ℕ) → Cmd Ptr
kmalloc fuel nbytes = ksmalloc call_depth fuel nbytes 0 1

unfoldable pub kamalloc : (fuel nbytes align : ℕ) → Cmd Ptr
kamalloc fuel nbytes align = ksmalloc call_depth fuel nbytes align 1

-- The blocks behind the freed one are joined to it up to the next used one, and thrown out.
unfoldable pub free_block_loop : (fuel : ℕ) → (p next : Ptr) → Cmd (Unit {0})
free_block_loop zero p next = λ _. out_of_fuel
free_block_loop (suc fuel) p next =
    let join = (do
      b ← load p
      n ← load next
      set_size p (add32 b.size n.size)
      n ← load next
      s ← get
      set_next next s.free_blocks
      modify (λ t. record t { free_blocks = next })
      free_block_loop fuel p n.next) in
    if next == 0
    then set_next p next
    else (do n ← load next; if n.used == 1 then set_next p next else join)

unfoldable pub free_block : (fuel : ℕ) → Ptr → Cmd (Unit {0})
free_block fuel p = do set_used p 0; b ← load p; free_block_loop fuel p b.next

-- The result is the byte that `kfree` returns; its message on a miss is not modelled.
unfoldable pub kfree_loop : (fuel lookfor : ℕ) → Ptr → (start : ℕ) → Cmd ℕ
kfree_loop zero lookfor p start = λ _. out_of_fuel
kfree_loop (suc fuel) lookfor p start =
    let round = (do
      b ← load p
      if (b.used == 1) && (lookfor == start)
          then (do
            modify (λ t. record t {
              free_memory = sub32 t.free_memory b.size;
              claimed_memory = add32 t.claimed_memory b.size;
            })
            free_block fuel p
            modify (λ t. record t { allocations = sub32 t.allocations 1 })
            pure 1)
          else kfree_loop fuel lookfor b.next (add32 start b.size)) in
    if p == 0 then pure 0 else round

unfoldable pub kfree : (fuel : ℕ) → Ptr → Cmd ℕ
kfree fuel p = do s ← get; kfree_loop fuel (sub32 p s.memory_start) s.allocator_map 0

unfoldable pub init_kallocator : (fuel min_usable max_usable : ℕ) → Cmd (Unit {0})
init_kallocator fuel lo hi = do
  modify (λ t. record t {
    memory_start = lo;
    next_memblock_addr = add32 lo sizeof_block;
    allocator_map = lo;
    page_depletion = add32 t.page_depletion 1;
  })
  store lo (block (sub32 hi lo) 0 0)
  modify (λ t. record t { free_memory = sub32 hi lo; total_memory = sub32 hi lo })
  ksmalloc call_depth fuel 4096 0 3 >> pure tt

-- The walk of `kmarkunusable`, whose offsets are relative and whose bound `cut_from` is absolute.
unfoldable pub mark_loop :
    (page : Cmd Ptr)
    → (fuel : ℕ) → (cut_from cut_to : ℕ) → (crt prev : Ptr) → (start remaining : ℕ) → Cmd (Unit {0})
mark_loop page zero cut_from cut_to crt prev start remaining = λ _. out_of_fuel
mark_loop page (suc fuel) cut_from cut_to crt prev start remaining =
    let round = (do
      b ← load crt
      let fin = add32 start b.size
      let go_on = (do
        b ← load crt
        mark_loop page fuel cut_from cut_to b.next crt (add32 start b.size) remaining)
      let cut = (do
        b ← load crt
        let left = if leb cut_from start then sub32 cut_from start else 0
        let right = if leb fin cut_to then fin else sub32 fin cut_to
        if b.used == 0
            then cut_block page prev crt left (sub32 (sub32 b.size left) right) right 2
            else pure tt)
      let consume = (do
        cut
        b ← load crt
        let rest = if leb remaining b.size then 0 else sub32 remaining b.size
        if rest == 0
            then pure tt
            else mark_loop page fuel cut_from cut_to b.next crt (add32 start b.size) rest)
      if leb cut_from fin then consume else go_on) in
    if crt == 0 then pure tt else round

unfoldable pub kmarkunusable : (fuel nbytestotal cut_from : ℕ) → Cmd (Unit {0})
kmarkunusable fuel n from = do
  s ← get
  mark_loop (kmalloc fuel 4096) fuel from (add32 from n) s.allocator_map 0 0 n
