-- ===== src/Boot/Tags/Collect.antt =====
-- What `init_boot` collects from a list of tags that is laid out in memory.
use wolf_os.Base.{
  ℕ, zero, suc, ◌+◌, ◌*◌, ◌/◌, ◌^◌, ◌<◌, ◌≡◌, refl, ap, sym, subst, ◌∙◌, Bool, true, false, ◌&&◌,
  ◌||◌, not, List, [], ◌∷◌, Option, none, some, Option-cases, ltb, ◌==◌, if◌then◌else◌, Bool-cases,
  inl, inr, arith, length,
}
use wolf_os.Base.Words.{add32, sub32}
use wolf_os.Base.Bits.{bit_and_high}
use wolf_os.Base.Machine.{Memory, read32}
use wolf_os.Boot.Tags.{
  BootData, Boot, done, with_mmap, with_framebuffer, take_tag, aligned_size, walk_tags, init_boot,
  tag_mmap, tag_framebuffer, tag_efi_mmap, tag_efi32_ih, framebuffer_indexed, bootloader_magic,
  bootsource_bios, bootsource_uefi,
}

-- A tag by its address, its type and its size; what else it holds is read from memory.
pub record Tag : Type 0 where
  pub at : ℕ
  pub kind : ℕ
  pub size : ℕ

abbrev pub is_mmap : Tag → Bool
is_mmap t = t.kind == tag_mmap

abbrev pub is_framebuffer : Memory → Tag → Bool
is_framebuffer m t = (t.kind == tag_framebuffer) && not (m (t.at + 29) == framebuffer_indexed)

abbrev pub is_efi : Tag → Bool
is_efi t = (t.kind == tag_efi_mmap) || (t.kind == tag_efi32_ih)

-- The tags stand one behind the other from p on, each at a multiple of 8 from the one before, and an
-- end tag stands behind the last, all below `end`. A memory map has entries of some size.
abbrev pub Laid : Memory → (end p : ℕ) → List Tag → Type 0
Laid m end p [] = (p < end) × (read32 m p ≡ 0) × (read32 m (p + 4) ≡ 8)
Laid m end p (t ∷ ts) =
    (t.at ≡ p)
    × (p < end)
    × (read32 m p ≡ t.kind)
    × (read32 m (p + 4) ≡ t.size)
    × (0 < t.kind)
    × (p + t.size + 7 < 2 ^ 32)
    × (is_mmap t && (read32 m (p + 8) == 0) ≡ false)
    × Laid m end (p + (t.size + 7) / 8 * 8) ts

aligned_size-eq : (n : ℕ) → n + 7 < 2 ^ 32 → aligned_size n ≡ (n + 7) / 8 * 8
unfolding aligned_size
aligned_size-eq n h =
    let sum : add32 n 7 ≡ n + 7 = omega arith in rw sum (bit_and_high 3 29 (n + 7) (omega arith))

-- The last tag of a kind, and whether there is one.
unfoldable pub last : (Tag → Bool) → List Tag → Option Tag
last f [] = none
last f (t ∷ ts) = elim (last f ts) [ none ↦ if f t then some t else none | some u ↦ some u ]

unfoldable pub any : (Tag → Bool) → List Tag → Bool
any f [] = false
any f (t ∷ ts) = f t || any f ts

abbrev pub from_mmap : Memory → Option Tag → BootData → BootData
from_mmap m none b = b
from_mmap m (some t) b = with_mmap (t.at + 16) (sub32 t.size 16 / read32 m (t.at + 8)) b

abbrev pub from_framebuffer : Memory → Option Tag → BootData → BootData
from_framebuffer m none b = b
from_framebuffer m (some t) b = with_framebuffer m t.at b

abbrev pub from_source : Bool → BootData → BootData
from_source true b = record b { boot_source = bootsource_uefi }
from_source false b = b

-- The last memory map, the last framebuffer that is not indexed, and UEFI if a tag of it is there.
abbrev pub collected : Memory → List Tag → BootData → BootData
collected m ts b =
    from_source (any is_efi ts)
      (from_framebuffer m (last (is_framebuffer m) ts) (from_mmap m (last is_mmap ts) b))

-- What one tag does.
effect : Memory → Tag → BootData → BootData
effect m t b =
    if is_mmap t
    then from_mmap m (some t) b
    else if is_framebuffer m t
    then from_framebuffer m (some t) b
    else from_source (is_efi t) b

last-skip : (f : Tag → Bool) (t : Tag) (ts : List Tag) → f t ≡ false → last f (t ∷ ts) ≡ last f ts
unfolding last
last-skip f t ts e = elim (Option-cases (last f ts)) [
  | inl none_left ↦ rw (none_left, e)
  | inr (u, found) ↦ rw found
]

from_mmap-last :
    (m : Memory) (t : Tag) (ts : List Tag) (b : BootData)
    → is_mmap t ≡ true
    → from_mmap m (last is_mmap ts) (from_mmap m (some t) b) ≡ from_mmap m (last is_mmap (t ∷ ts)) b
unfolding last
from_mmap-last m t ts b e = elim (Option-cases (last is_mmap ts)) [
  | inl none_left ↦ rw (none_left, e)
  | inr (u, found) ↦ rw found
]

from_framebuffer-last :
    (m : Memory) (t : Tag) (ts : List Tag) (b : BootData)
    → is_framebuffer m t ≡ true
    → from_framebuffer m (last (is_framebuffer m) ts) (from_framebuffer m (some t) b)
      ≡ from_framebuffer m (last (is_framebuffer m) (t ∷ ts)) b
unfolding last
from_framebuffer-last m t ts b e = elim (Option-cases (last (is_framebuffer m) ts)) [
  | inl none_left ↦ rw (none_left, e)
  | inr (u, found) ↦ rw found
]

mmap-framebuffer_comm :
    (m : Memory) (o : Option Tag) (t : Tag) (b : BootData)
    → from_mmap m o (from_framebuffer m (some t) b) ≡ from_framebuffer m (some t) (from_mmap m o b)
mmap-framebuffer_comm m none t b = refl
mmap-framebuffer_comm m (some u) t b = refl

source_comm :
    (m : Memory) (o u : Option Tag) (b : BootData)
    → from_framebuffer m u (from_mmap m o (from_source true b))
      ≡ from_source true (from_framebuffer m u (from_mmap m o b))
source_comm m none none b = refl
source_comm m none (some y) b = refl
source_comm m (some x) none b = refl
source_comm m (some x) (some y) b = refl

source-twice : (e : Bool) (b : BootData) → from_source e (from_source true b) ≡ from_source true b
source-twice true b = refl
source-twice false b = refl

collected-cons :
    (m : Memory) (t : Tag) (ts : List Tag) (b : BootData)
    → collected m (t ∷ ts) b ≡ collected m ts (effect m t b)
unfolding effect any
collected-cons m t ts b = elim (Bool-cases (is_mmap t)) [
  | inl e ↦
      let other : is_framebuffer m t ≡ false = ground arith in
      let bios : is_efi t ≡ false = ground arith in
      rw (last-skip (is_framebuffer m) t ts other, bios, e, ← from_mmap-last m t ts b e)
  | inr e ↦ elim (Bool-cases (is_framebuffer m t)) [
    | inl f ↦
        let bios : is_efi t ≡ false = ground arith in
        rw (
          e,
          f,
          bios,
          last-skip is_mmap t ts e,
          mmap-framebuffer_comm m (last is_mmap ts) t b,
          from_framebuffer-last m t ts (from_mmap m (last is_mmap ts) b) f,
        )
    | inr g ↦ elim (Bool-cases (is_efi t)) [
      | inl s ↦ rw (
        e,
        g,
        s,
        last-skip is_mmap t ts e,
        last-skip (is_framebuffer m) t ts g,
        source_comm m (last is_mmap ts) (last (is_framebuffer m) ts) b,
        source-twice,
      )
      | inr s ↦ rw (e, g, s, last-skip is_mmap t ts e, last-skip (is_framebuffer m) t ts g)
    ]
  ]
]

collected-nil : (m : Memory) (b : BootData) → collected m [] b ≡ b
unfolding last any
collected-nil m b = refl

take_tag-effect :
    (m : Memory) (t : Tag) (b : BootData) (go_on : BootData → Boot)
    → (is_mmap t && (read32 m (t.at + 8) == 0)) ≡ false
    → take_tag m t.at t.kind t.size b go_on ≡ go_on (effect m t b)
unfolding take_tag effect
take_tag-effect m t b go_on sane = elim (Bool-cases (is_mmap t)) [
  | inl e ↦ let sized : (read32 m (t.at + 8) == 0) ≡ false = ground arith in rw (e, sized)
  | inr e ↦ ground arith
]

module _ (m : Memory) (end : ℕ) where
  walk_tags-collected :
      (ts : List Tag) (fuel p : ℕ) (b : BootData)
      → Laid m end p ts
      → length ts < fuel
      → walk_tags m fuel end p b ≡ done (collected m ts b)
  unfolding walk_tags
  walk_tags-collected ts zero p b laid enough = absurd (omega arith)
  walk_tags-collected [] (suc fuel) p b (below, kind, size) enough =
      let inside : ltb p end ≡ true = ground arith in rw (inside, kind, size, collected-nil m b)
  walk_tags-collected (t ∷ ts) (suc fuel) p b (at, below, kind, size, some_kind, fits, sane, rest)
        enough =
      let inside : ltb p end ≡ true = ground arith in
      let open_kind : (t.kind == 0) ≡ false = ground arith in
      let step : add32 p (aligned_size t.size) ≡ p + (t.size + 7) / 8 * 8 =
        rw (aligned_size-eq t.size (omega arith)) (omega arith) in
      let next = p + (t.size + 7) / 8 * 8 in
      let go_on = λ (b' : BootData). walk_tags m fuel end next b' in
      rw (inside, kind, size, open_kind, step)
        (subst (λ x. take_tag m x t.kind t.size b go_on ≡ go_on (effect m t b)) at
            (take_tag-effect m t b go_on (rw at sane))
          ∙ walk_tags-collected ts fuel next (effect m t b) rest (omega arith)
          ∙ ap done (sym (collected-cons m t ts b)))

Laid-below : (m : Memory) (end p : ℕ) (ts : List Tag) → Laid m end p ts → p < end
Laid-below m end p [] laid = laid.0
Laid-below m end p (t ∷ ts) laid = laid.1

-- With enough rounds for the tags, `init_boot` returns the last memory map, the last framebuffer that
-- is not indexed, and UEFI as the source if a tag of it is there, BIOS if not; a boot loader that
-- gives the wrong number makes it panic.
pub init_boot-collected :
    (m : Memory) (ts : List Tag) (fuel magic mbdata : ℕ) (before : BootData)
    → mbdata + read32 m mbdata < 2 ^ 32
    → Laid m (mbdata + read32 m mbdata) (mbdata + 8) ts
    → length ts < fuel
    → init_boot m fuel magic mbdata before ≡ (
        if magic == bootloader_magic
        then done (
            collected m ts (record before {
              framebuffer_addr = 0;
              mmap_entries = 0;
              boot_source = bootsource_bios;
            }))
        else Boot.panicked)
unfolding init_boot
init_boot-collected m ts fuel magic mbdata before fits laid enough =
    let end : add32 mbdata (read32 m mbdata) ≡ mbdata + read32 m mbdata = omega arith in
    elim (Bool-cases (magic == bootloader_magic)) [
      | inl e ↦
          let start : add32 mbdata 8 ≡ mbdata + 8 =
            omega (arith, Laid-below m (mbdata + read32 m mbdata) (mbdata + 8) ts laid) in
          rw (e, end, start)
            (walk_tags-collected m (mbdata + read32 m mbdata) ts fuel (mbdata + 8)
              (record before {
                framebuffer_addr = 0;
                mmap_entries = 0;
                boot_source = bootsource_bios;
              })
              laid enough)
      | inr e ↦ rw e
    ]
