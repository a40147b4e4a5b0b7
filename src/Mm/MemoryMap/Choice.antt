-- ===== src/Mm/MemoryMap/Choice.antt =====
-- The chosen region is usable memory above the kernel, and no usable entry has a larger one.
use wolf_os.Base.{
  ℕ, ◌+◌, ◌-◌, ◌*◌, ◌/◌, ◌%◌, ◌^◌, ◌≤◌, ◌<◌, ◌≡◌, ◌≢◌, refl, ◌⊎◌, inl, inr, true, ◌||◌, List, [],
  ◌∷◌, Option, none, some, ◌==◌, if◌then◌else◌, arith, Bool-cases,
}
use native.Mathlib.Decide.{ℕ_discrete}
use native.Mathlib.Nat.{le_trans}
use wolf_os.Base.Words.{add32, sub32}
use wolf_os.Base.Bits.{bit_and_high}
use wolf_os.Mm.MemoryMap.{
  MapEntry, memory_available, Region, above_kernel, floor_page, ceil_page, to_pages, Best, improves,
  consider, choose_loop, choose_region,
}

floor_page-eq : (a : ℕ) → a < 2 ^ 32 → floor_page a ≡ a / 4096 * 4096
floor_page-eq a h = bit_and_high 12 20 a (omega arith)

-- Rounding up wraps to 0 in the last page of the address space.
ceil_page-eq : (a : ℕ) → a < 2 ^ 32 → ceil_page a ≡ add32 a 4095 / 4096 * 4096
ceil_page-eq a h = bit_and_high 12 20 (add32 a 4095) (omega arith)

abbrev pub MemEntry : MapEntry → List MapEntry → Type 0
MemEntry e [] = ⊥
MemEntry e (d ∷ es) = (e ≡ d) ⊎ MemEntry e es

-- An entry whose last address is below 2 ^ 64.
abbrev pub AllValid : List MapEntry → Type 0
AllValid [] = Unit
AllValid (e ∷ es) = (e.base_addr + e.len < 2 ^ 64) × AllValid es

-- Whole pages of an available entry that lie above the kernel.
pub record IsUsable (kernel_end : ℕ) (e : MapEntry) (start size : ℕ) : Type 0 where
  pub available : e.kind ≡ memory_available
  pub start_page : start % 4096 ≡ 0
  pub size_page : size % 4096 ≡ 0
  pub above : kernel_end ≤ start
  pub inside : e.base_addr ≤ start
  pub ends : start + size ≤ e.base_addr + e.len
  pub fits : start + size < 2 ^ 32

-- The region above the kernel, inside its entry.
above_kernel-inside :
    (kernel_end : ℕ) (e : MapEntry)
    → kernel_end < 2 ^ 32
    → e.base_addr + e.len < 2 ^ 64
    → e.base_addr < 2 ^ 32
    → let r = above_kernel kernel_end e in
      r.start < r.end
      → (kernel_end ≤ r.start)
        × (e.base_addr ≤ r.start)
        × (r.end ≤ e.base_addr + e.len)
        × (r.end < 2 ^ 32)
unfolding above_kernel
above_kernel-inside kernel_end e hk hv hb lt = ground arith

-- Rounded to pages it stays inside, unless the start wraps to 0.
to_pages-inside :
    (r : Region)
    → r.end < 2 ^ 32
    → r.start < r.end
    → (to_pages r).start < (to_pages r).end
    → (to_pages r).start ≢ 0
    → (r.start ≤ (to_pages r).start)
      × ((to_pages r).end ≤ r.end)
      × ((to_pages r).start % 4096 ≡ 0)
      × ((to_pages r).end % 4096 ≡ 0)
to_pages-inside r he lt lt' nz =
    omega (arith, floor_page-eq r.end he, ceil_page-eq r.start (omega arith))

-- The facts that the conditions test.
improves-facts :
    (kernel_end : ℕ) (e : MapEntry) (best : Best)
    → improves kernel_end e best ≡ true
    → let r = above_kernel kernel_end e in
      (e.kind ≡ memory_available)
      × (e.base_addr < 2 ^ 32)
      × (r.start < r.end)
      × ((to_pages r).start < (to_pages r).end)
unfolding improves
improves-facts kernel_end e best h = ground arith

improves-IsUsable :
    (kernel_end : ℕ) (e : MapEntry) (best : Best)
    → kernel_end < 2 ^ 32
    → e.base_addr + e.len < 2 ^ 64
    → improves kernel_end e best ≡ true
    → let p = to_pages (above_kernel kernel_end e) in
      p.start ≢ 0 → IsUsable kernel_end e p.start (sub32 p.end p.start)
improves-IsUsable kernel_end e best hk hv h nz =
    let r = above_kernel kernel_end e in
    let f = improves-facts kernel_end e best h in
    let inside = above_kernel-inside kernel_end e hk hv f.1 f.2 in
    let pages = to_pages-inside r inside.3 f.2 f.3 nz in
    record {
      available = f.0;
      start_page = pages.2;
      size_page = omega arith;
      above = omega arith;
      inside = omega arith;
      ends = omega arith;
      fits = omega arith;
    }

abbrev pub Found : (kernel_end : ℕ) → List MapEntry → (start size : ℕ) → Type 0
Found kernel_end es start size = (e : MapEntry) × MemEntry e es × IsUsable kernel_end e start size

-- The best region is usable, unless its start is 0.
abbrev Good : (kernel_end : ℕ) → List MapEntry → Best → Type 0
Good kernel_end es best = (best.start ≡ 0) ⊎ Found kernel_end es best.start best.size

consider-Good :
    (kernel_end : ℕ) (e : MapEntry) (es : List MapEntry) (best : Best)
    → kernel_end < 2 ^ 32
    → e.base_addr + e.len < 2 ^ 64
    → MemEntry e es
    → Good kernel_end es best
    → Good kernel_end es (consider kernel_end e best)
unfolding consider
consider-Good kernel_end e es best hk hv m good = elim (Bool-cases (improves kernel_end e best)) [
  | inr no_better ↦ rw no_better good
  | inl better ↦
      let p = to_pages (above_kernel kernel_end e) in
      rw better (elim (ℕ_discrete p.start 0) [
        | yes z ↦ inl z
        | no nz ↦ inr (e, m, improves-IsUsable kernel_end e best hk hv better nz)
      ])
]

choose_loop-Good :
    (kernel_end : ℕ) (es all : List MapEntry) (best : Best)
    → kernel_end < 2 ^ 32
    → AllValid es
    → ((e : MapEntry) → MemEntry e es → MemEntry e all)
    → Good kernel_end all best
    → Good kernel_end all (choose_loop kernel_end es best)
unfolding choose_loop
choose_loop-Good kernel_end [] all best hk hv sub good = good
choose_loop-Good kernel_end (e ∷ es) all best hk hv sub good =
    choose_loop-Good kernel_end es all (consider kernel_end e best) hk hv.1 (λ d m. sub d (inr m))
      (consider-Good kernel_end e all best hk hv.0 (sub e (inl refl)) good)

-- The loop never gives a smaller region up for a larger one.
le-consider :
    (kernel_end : ℕ) (e : MapEntry) (best : Best) → best.size ≤ (consider kernel_end e best).size
unfolding consider improves
le-consider kernel_end e best = ground arith

le-choose_loop :
    (kernel_end : ℕ) (es : List MapEntry) (best : Best)
    → best.size ≤ (choose_loop kernel_end es best).size
unfolding choose_loop
le-choose_loop kernel_end [] best = omega arith
le-choose_loop kernel_end (e ∷ es) best = omega (
  arith,
  le-choose_loop kernel_end es (consider kernel_end e best),
  le-consider kernel_end e best,
)

-- What `choose_region` makes of the best region.
abbrev outcome : Best → Option Region
outcome best =
    if (best.start == 0) || (best.size == 0)
    then none
    else some (record { start = best.start; end = add32 best.start best.size })

outcome-Found :
    (kernel_end : ℕ) (es : List MapEntry) (best : Best) (r : Region)
    → Good kernel_end es best
    → outcome best ≡ some r
    → (r.end ≡ r.start + best.size) × (0 < best.size) × Found kernel_end es r.start best.size
outcome-Found kernel_end es best r (inl zero_start) h = absurd (ground arith)
outcome-Found kernel_end es best r (inr (e, m, u)) h =
    let same : r.start ≡ best.start = ground arith in
    let ends : r.end ≡ best.start + best.size = ground (arith, u.fits) in
    let pos : 0 < best.size = ground arith in (omega arith, pos, rw same (e, m, u))

chosen :
    (kernel_end : ℕ) (es : List MapEntry) {r : Region}
    → kernel_end < 2 ^ 32
    → AllValid es
    → choose_region kernel_end es ≡ some r
    → let size = (choose_loop kernel_end es (record { start = 0; size = 0 })).size in
      (r.end ≡ r.start + size) × (0 < size) × Found kernel_end es r.start size
unfolding choose_region
chosen kernel_end es {r} hk hv h =
    let best = choose_loop kernel_end es (record { start = 0; size = 0 }) in
    outcome-Found kernel_end es best r
      (choose_loop-Good kernel_end es es (record { start = 0; size = 0 }) hk hv (λ e m. m)
        (inl refl))
      h

-- If `init_memory_manager` finds a region in a map whose entries end below 2 ^ 64, the region is not
-- empty, starts and ends at a page boundary, lies above the kernel and below 4 GiB, and is inside
-- one available entry of the map.
pub choose_region-IsUsable :
    (kernel_end : ℕ) (es : List MapEntry) {r : Region}
    → kernel_end < 2 ^ 32
    → AllValid es
    → choose_region kernel_end es ≡ some r
    → (size : ℕ) × (r.end ≡ r.start + size) × (0 < size) × Found kernel_end es r.start size
choose_region-IsUsable kernel_end es hk hv h =
    let (ends, pos, found) = chosen kernel_end es hk hv h in (_, ends, pos, found)

-- The part of an entry above the kernel takes in every usable region of the entry.
above_kernel-covers :
    (kernel_end start size : ℕ) (e : MapEntry)
    → IsUsable kernel_end e start size
    → 0 < size
    → e.base_addr + e.len < 2 ^ 32
    → ((above_kernel kernel_end e).start ≤ start)
      × ((above_kernel kernel_end e).end ≡ e.base_addr + e.len)
unfolding above_kernel
above_kernel-covers kernel_end start size e u pos small = ground arith

-- So do its whole pages.
to_pages-covers :
    (start size : ℕ) (r : Region)
    → start % 4096 ≡ 0
    → size % 4096 ≡ 0
    → 0 < size
    → r.start ≤ start
    → start + size ≤ r.end
    → r.end < 2 ^ 32
    → ((to_pages r).start ≤ start) × (start + size ≤ (to_pages r).end) × ((to_pages r).end < 2 ^ 32)
to_pages-covers start size r sp zp pos lo hi small =
    omega (arith, floor_page-eq r.end small, ceil_page-eq r.start (omega arith))

consider-largest :
    (kernel_end start size : ℕ) (e : MapEntry) (best : Best)
    → IsUsable kernel_end e start size
    → 0 < size
    → e.base_addr + e.len < 2 ^ 32
    → size ≤ (consider kernel_end e best).size
unfolding consider improves
consider-largest kernel_end start size e best u pos small =
    let (lo, hi) = above_kernel-covers kernel_end start size e u pos small in
    let pages =
      to_pages-covers start size (above_kernel kernel_end e) u.start_page u.size_page pos lo
        (omega (arith, u.ends)) (omega arith) in
    ground (arith, u.available, u.ends, u.inside, pages)

choose_loop-largest :
    (kernel_end start size : ℕ) (e : MapEntry) (es : List MapEntry) (best : Best)
    → MemEntry e es
    → IsUsable kernel_end e start size
    → 0 < size
    → e.base_addr + e.len < 2 ^ 32
    → size ≤ (choose_loop kernel_end es best).size
unfolding choose_loop
choose_loop-largest kernel_end start size e [] best m u pos small = absurd m
choose_loop-largest kernel_end start size e (d ∷ es) best (inl same) u pos small =
    let next = consider kernel_end d best in
    le_trans (rw (← same) (consider-largest kernel_end start size e best u pos small))
      (le-choose_loop kernel_end es next)
choose_loop-largest kernel_end start size e (d ∷ es) best (inr m) u pos small =
    choose_loop-largest kernel_end start size e es (consider kernel_end d best) m u pos small

-- If `init_memory_manager` finds a region in a map whose entries end below 2 ^ 64, no usable region,
-- that is whole pages above the kernel inside an available entry, is larger, for entries that end
-- below 4 GiB.
pub choose_region-largest :
    (kernel_end start size : ℕ) (es : List MapEntry) (e : MapEntry) {r : Region}
    → kernel_end < 2 ^ 32
    → AllValid es
    → choose_region kernel_end es ≡ some r
    → MemEntry e es
    → IsUsable kernel_end e start size
    → 0 < size
    → e.base_addr + e.len < 2 ^ 32
    → size ≤ r.end - r.start
choose_region-largest kernel_end start size es e {r} hk hv h m u pos small = omega (
  arith,
  (chosen kernel_end es hk hv h).0,
  choose_loop-largest kernel_end start size e es (record { start = 0; size = 0 }) m u pos small,
)
