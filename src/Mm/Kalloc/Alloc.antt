-- ===== src/Mm/Kalloc/Alloc.antt =====
-- `kmalloc` on a list without two free neighbours: first fit.
use wolf_os.Base.{
  ℕ, ◌-◌, ◌^◌, ◌<◌, ◌≡◌, ◌≢◌, ap, refl, true, false, Option, some, ◌==◌, if◌then◌else◌, arith,
}
use wolf_os.Base.Words.{add32, sub32}
use wolf_os.Mm.Kalloc.{
  Ptr, Block, block, Kalloc, ok, Cmd, put_node, load, store, mkblock, memblocks_per_page,
  sizeof_block, Cursor, set_next, set_size, set_used, cut_right, cut_block, hand_out, zero_fill,
  ◌>>◌, serve,
}

-- Where the next `mkblock` takes its structure from, with no page to be allocated.
pub data HasSlot (s : Kalloc) (new : Ptr) : Type 0 where
  fresh :
      s.free_blocks ≡ 0
      → s.page_depletion ≢ memblocks_per_page
      → new ≡ s.next_memblock_addr
      → HasSlot s new
  recycled :
      (b : Block)
      → s.free_blocks ≢ 0
      → s.node s.free_blocks ≡ some b
      → new ≡ s.free_blocks
      → HasSlot s new

-- The globals that `mkblock` leaves alone.
pub record Untouched (s t : Kalloc) : Type 0 where
  pub node : t.node ≡ s.node
  pub bytes : t.bytes ≡ s.bytes
  pub allocator_map : t.allocator_map ≡ s.allocator_map
  pub memory_start : t.memory_start ≡ s.memory_start
  pub free_memory : t.free_memory ≡ s.free_memory
  pub claimed_memory : t.claimed_memory ≡ s.claimed_memory
  pub total_memory : t.total_memory ≡ s.total_memory
  pub allocations : t.allocations ≡ s.allocations

pub load-some : (p : Ptr) (b : Block) (s : Kalloc) → p ≢ 0 → s.node p ≡ some b → load p s ≡ ok b s
unfolding load
load-some p b s ne e = ground (arith, e)

abbrev after_fresh : Kalloc → Kalloc
after_fresh s = record s {
  next_memblock_addr = add32 s.next_memblock_addr sizeof_block;
  page_depletion = add32 s.page_depletion 1;
}

mkblock-HasSlot :
    (page : Cmd Ptr) (s : Kalloc) (new : Ptr)
    → HasSlot s new
    → (t : Kalloc) × (mkblock page s ≡ ok new t) × Untouched s t
unfolding mkblock
mkblock-HasSlot page s new (fresh empty left e) =
    let a : (s.free_blocks == 0) ≡ true = ground arith in
    let b : (s.page_depletion == memblocks_per_page) ≡ false = ground arith in
    (after_fresh s, rw (a, b, e), ground arith)
mkblock-HasSlot page s new (recycled b ne at e) =
    let a : (s.free_blocks == 0) ≡ false = ground arith in
    (record s { free_blocks = b.next }, rw (a, load-some s.free_blocks b s ne at, e), ground arith)

-- What `serve` leaves at an address when it cuts the free block (size, next) at `a` to n bytes.
pub record Served (s t : Kalloc) (a new n mark size addr : ℕ) (next : Ptr) : Type 0 where
  pub at_block : t.node a ≡ some (block n mark (if size == n then next else new))
  pub at_new : (size == n) ≡ false → t.node new ≡ some (block (size - n) 0 next)
  pub elsewhere : (x : Ptr) → x ≢ a → x ≢ new → t.node x ≡ s.node x
  pub allocator_map : t.allocator_map ≡ s.allocator_map
  pub memory_start : t.memory_start ≡ s.memory_start
  pub free_memory : t.free_memory ≡ sub32 s.free_memory n
  pub claimed_memory : t.claimed_memory ≡ add32 s.claimed_memory n
  pub allocations : t.allocations ≡ add32 s.allocations 1
  pub bytes : t.bytes ≡ (if mark == 1 then zero_fill s.bytes addr n else s.bytes)

-- The counters and the memory after `hand_out`.
abbrev handed : (n mark addr : ℕ) → Kalloc → Kalloc
handed n mark addr t = record t {
  allocations = add32 t.allocations 1;
  free_memory = sub32 t.free_memory n;
  claimed_memory = add32 t.claimed_memory n;
  bytes = if mark == 1 then zero_fill t.bytes addr n else t.bytes;
}

-- The last two writes of `cut_block`.
abbrev sized : (p n mark : ℕ) → Block → Kalloc → Kalloc
sized p n mark b t = record t {
  node =
      put_node (put_node t.node p (record b { size = n })) p (record b { size = n; used = mark });
}

set_size_used :
    (p n mark : ℕ) (b : Block) (t : Kalloc)
    → p ≢ 0
    → t.node p ≡ some b
    → (do set_size p n; set_used p mark) t ≡ ok tt (sized p n mark b t)
unfolding set_size set_used load store
set_size_used p n mark b t ne at = ground (arith, at)

cut_right-slot :
    (page : Cmd Ptr) (p new right : ℕ) (b : Block) (s t : Kalloc)
    → mkblock page s ≡ ok new t
    → t.node ≡ s.node
    → p ≢ 0
    → new ≢ 0
    → new ≢ p
    → s.node p ≡ some b
    → cut_right page p right s
      ≡ ok tt (record t {
        node = put_node (put_node t.node new (block right 0 b.next)) p (record b { next = new });
      })
unfolding cut_right set_next load store
cut_right-slot page p new right b s t made same np nn ne at = rw made (ground (arith, at))

abbrev right_of : ℕ → ℕ → ℕ
right_of size n = sub32 (sub32 size n) 0

abbrev pub address_of : Kalloc → Cursor → ℕ
address_of s c = add32 (add32 s.memory_start 0) c.start

-- A block that is cut with nothing left over only changes its mark.
pub serve_whole :
    (page : Cmd Ptr) (n mark new : ℕ) (s : Kalloc) (c : Cursor) (size : ℕ) (next : Ptr)
    → c.crt ≢ 0
    → s.node c.crt ≡ some (block size 0 next)
    → size ≡ n
    → size < 2 ^ 32
    → (t : Kalloc) × (serve page n mark c size 0 s ≡ ok (address_of s c) t)
      × Served s t c.crt new n mark size (address_of s c) next
unfolding serve cut_block hand_out
serve_whole page n mark new s c size next ne at e small =
    let nothing : (right_of size n == 0) ≡ true = ground arith in
    let whole : (size == n) ≡ true = ground arith in
    (
      handed n mark (address_of s c) (sized c.crt n mark (block size 0 next) s),
      rw (nothing, set_size_used c.crt n mark (block size 0 next) s ne at),
      record {
        at_block = rw whole (ground arith);
        at_new = λ d. absurd (cc);
        elsewhere = ground arith;
        allocator_map = refl;
        memory_start = refl;
        free_memory = refl;
        claimed_memory = refl;
        allocations = refl;
        bytes = refl;
      },
    )

-- A larger block is cut: the part on the right is a free block at the slot.
pub serve_part :
    (page : Cmd Ptr) (n mark new : ℕ) (s : Kalloc) (c : Cursor) (size : ℕ) (next : Ptr)
    → c.crt ≢ 0
    → s.node c.crt ≡ some (block size 0 next)
    → n < size
    → size < 2 ^ 32
    → HasSlot s new
    → new ≢ 0
    → new ≢ c.crt
    → (t : Kalloc) × (serve page n mark c size 0 s ≡ ok (address_of s c) t)
      × Served s t c.crt new n mark size (address_of s c) next
unfolding serve cut_block hand_out
serve_part page n mark new s c size next ne at more small slot nn na =
    let something : (right_of size n == 0) ≡ false = ground arith in
    let right : right_of size n ≡ size - n = omega arith in
    let part : (size == n) ≡ false = ground arith in
    let (t, made, u) = mkblock-HasSlot page s new slot in
    let m = record t {
      node =
          put_node (put_node t.node new (block (right_of size n) 0 next)) c.crt (block size 0 new);
    } in
    let cut : cut_right page c.crt (right_of size n) s ≡ ok tt m =
      cut_right-slot page c.crt new (right_of size n) (block size 0 next) s t made u.node ne nn na
        at in
    let there : m.node c.crt ≡ some (block size 0 new) = ground arith in
    (
      handed n mark (address_of s c) (sized c.crt n mark (block size 0 new) m),
      rw (something, cut, set_size_used c.crt n mark (block size 0 new) m ne there, u.memory_start),
      record {
        at_block = rw part (ground arith);
        at_new = λ d. ground (arith, right);
        elsewhere = λ x p q. ground (arith, ap (λ (f : Ptr → Option Block). f x) u.node);
        allocator_map = u.allocator_map;
        memory_start = u.memory_start;
        free_memory = rw u.free_memory;
        claimed_memory = rw u.claimed_memory;
        allocations = rw u.allocations;
        bytes = rw u.bytes;
      },
    )
