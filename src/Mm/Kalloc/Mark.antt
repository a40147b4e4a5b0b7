-- ===== src/Mm/Kalloc/Mark.antt =====
-- `kmarkunusable`, whose bounds are addresses while its walk counts from the first block.
use wolf_os.Base.{ℕ, zero, suc, ◌+◌, ◌^◌, ◌<◌, ◌≡◌, false, [], ◌∷◌, leb, ◌==◌, arith, length}
use wolf_os.Base.Words.{add32}
use wolf_os.Mm.Kalloc.{Ptr, Kalloc, ok, Cmd, block, mark_loop, kmarkunusable, kmalloc}
use wolf_os.Mm.Kalloc.Chain.{Cells, ChainAt, total_size}
use wolf_os.Mm.Kalloc.Alloc.{load-some}
use wolf_os.Mm.Kalloc.FirstFit.{IsHeap}

mark_loop-beyond :
    (page : Cmd Ptr) (cs : Cells) (fuel from to p prev start remaining : ℕ) (s : Kalloc)
    → ChainAt s.node p cs
    → start + total_size cs < from
    → from < 2 ^ 32
    → length cs < fuel
    → mark_loop page fuel from to p prev start remaining s ≡ ok tt s
unfolding mark_loop
mark_loop-beyond page [] zero from to p prev start remaining s h far small fu = absurd (omega arith)
mark_loop-beyond page (c ∷ cs) zero from to p prev start remaining s h far small fu =
    absurd (omega arith)
mark_loop-beyond page [] (suc fuel) from to p prev start remaining s h far small fu = rw h
mark_loop-beyond page (c ∷ cs) (suc fuel) from to p prev start remaining s (e, ne, (next, at, rest))
      far small fu =
    let sum : add32 start c.size ≡ start + c.size = omega arith in
    let there : (c.addr == 0) ≡ false = ground arith in
    let before : leb from (start + c.size) ≡ false = ground arith in
    rw
      (
        e,
        there,
        load-some c.addr (block c.size c.used next) s ne at,
        sum,
        before,
        load-some c.addr (block c.size c.used next) s ne at,
        sum,
      )
      (mark_loop-beyond page cs fuel from to next c.addr (start + c.size) remaining s rest
        (omega arith) small (omega arith))

-- A region whose first address is larger than the size of all blocks together is left as it is:
-- `kmarkunusable` returns and has marked nothing. Its caller passes addresses of the managed memory,
-- so this is every region when the memory starts above its own size.
pub kmarkunusable-beyond :
    (fuel n from : ℕ) (s : Kalloc) (cs : Cells)
    → IsHeap s cs
    → total_size cs < from
    → from < 2 ^ 32
    → length cs < fuel
    → kmarkunusable fuel n from s ≡ ok tt s
unfolding kmarkunusable
kmarkunusable-beyond fuel n from s cs h far small fu =
    mark_loop-beyond (kmalloc fuel 4096) cs fuel from (add32 from n) s.allocator_map 0 0 n s h.chain
      (omega arith) small fu
