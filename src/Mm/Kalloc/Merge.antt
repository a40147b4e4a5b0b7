-- ===== src/Mm/Kalloc/Merge.antt =====
-- The merge of two free neighbours that `ksmalloc` makes on its way.
use wolf_os.Base.{ℕ, ◌+◌, ◌^◌, ◌<◌, ◌≡◌, ◌≢◌, ◌↔◌, refl, some, arith}
use wolf_os.Base.Words.{add32, sub32}
use wolf_os.Mm.Kalloc.{Block, Kalloc, ok, put_node, Cursor, merge_block}
use wolf_os.Mm.Kalloc.Alloc.{load-some}
use wolf_os.Mm.Kalloc.Free.{set_next-some, set_size-some}

-- The state after the merge of the block b at the cursor into the block l before it.
abbrev pub merged : Cursor → (l b : Block) → Kalloc → Kalloc
merged c l b s = record s {
  node =
      put_node
        (put_node (put_node s.node c.last_free (record l { next = b.next })) c.last_free
          (record l { next = b.next; size = add32 l.size b.size }))
        c.crt (record b { next = s.free_blocks });
  free_blocks = c.crt;
}

merge_block-merged :
    (c : Cursor) (l b : Block) (s : Kalloc)
    → c.crt ≢ 0
    → c.last_free ≢ 0
    → c.crt ≢ c.last_free
    → s.node c.crt ≡ some b
    → s.node c.last_free ≡ some l
    → merge_block c s
      ≡ ok (record c { crt = c.last_free; start = sub32 c.start b.size }) (merged c l b s)
unfolding merge_block
merge_block-merged c l b s nc nl ne atb atl =
    let s1 : Kalloc = record s {
      node = put_node s.node c.last_free (record l { next = b.next });
    } in
    let s2 : Kalloc = record s {
      node = put_node s1.node c.last_free (record l { next = b.next; size = add32 l.size b.size });
    } in
    let l1 : s1.node c.last_free ≡ some (record l { next = b.next }) = ground arith in
    let b1 : s1.node c.crt ≡ some b = ground (arith, atb) in
    let b2 : s2.node c.crt ≡ some b = ground (arith, atb) in
    rw (
      load-some c.crt b s nc atb,
      set_next-some c.last_free b.next l s nl atl,
      load-some c.last_free (record l { next = b.next }) s1 nl l1,
      load-some c.crt b s1 nc b1,
      set_size-some c.last_free (add32 l.size b.size) (record l { next = b.next }) s1 nl l1,
      load-some c.crt b s2 nc b2,
      set_next-some c.crt s.free_blocks b s2 nc b2,
    )

-- When the block l that starts at the offset `start` and the block b behind it are merged, the walk
-- goes on at l with b's structure freed, l grown by b and linked to what follows b. The offset that
-- it goes on with is the start of l exactly if l was as large as b.
pub merge_block-start_iff :
    (c : Cursor) (l b : Block) (s : Kalloc) (start : ℕ)
    → c.crt ≢ 0
    → c.last_free ≢ 0
    → c.crt ≢ c.last_free
    → s.node c.crt ≡ some b
    → s.node c.last_free ≡ some l
    → c.start ≡ start + l.size
    → start + l.size + b.size < 2 ^ 32
    → (c' : Cursor) × (t : Kalloc) × (merge_block c s ≡ ok c' t)
      × (c'.crt ≡ c.last_free)
      × (t.free_blocks ≡ c.crt)
      × (t.node c.last_free ≡ some (record l { size = l.size + b.size; next = b.next }))
      × ((c'.start ≡ start) ↔ (l.size ≡ b.size))
merge_block-start_iff c l b s start nc nl ne atb atl at small =
    let sum : add32 l.size b.size ≡ l.size + b.size = omega arith in
    (
      record c { crt = c.last_free; start = sub32 c.start b.size },
      merged c l b s,
      merge_block-merged c l b s nc nl ne atb atl,
      refl,
      refl,
      rw (← sum) (ground (arith, ne)),
      (λ e. omega arith, λ e. omega arith),
    )
