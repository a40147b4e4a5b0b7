-- ===== src/Util/Strings/Copy.antt =====
-- What the byte-wise routines that copy memory leave in it.
use wolf_os.Base.{
  ℕ, zero, suc, ◌+◌, ◌-◌, ◌≤◌, ◌≡◌, ◌⊎◌, true, false, ◌&&◌, ltb, leb, ◌==◌, if◌then◌else◌,
  Bool-cases, inl, inr, arith,
}
use wolf_os.Base.Machine.{Memory, poke}
use wolf_os.Util.Strings.{copy_up, copy_down, memcpy_fast, memmove_fast}

-- The n bytes from d on are those from s on, all others as before.
abbrev pub copied : Memory → (d s n : ℕ) → Memory
copied m d s n b = if leb d b && ltb b (d + n) then m (s + (b - d)) else m b

pub copy_up-copied :
    (n : ℕ) (m : Memory) (d s b : ℕ) → (d ≤ s) ⊎ (s + n ≤ d) → copy_up m d s n b ≡ copied m d s n b
unfolding copy_up
copy_up-copied zero m d s b h = ground arith
copy_up-copied (suc n) m d s b h =
    rw (copy_up-copied n (poke m d (m s)) (d + 1) (s + 1) b (ground (arith, h)))
      (elim (Bool-cases (ltb d b)) [
        | inl after ↦
            let place : s + 1 + (b - (d + 1)) ≡ s + (b - d) = ground arith in
            rw place (ground (arith, h))
        | inr upto ↦ elim (Bool-cases (b == d)) [
          | inl e ↦ let first : s + (b - d) ≡ s = ground arith in rw first (ground arith)
          | inr ne ↦ ground arith
        ]
      ])

copy_down-copied :
    (n : ℕ) (m : Memory) (d s b : ℕ)
    → s ≤ d
    → n ≤ s + 1
    → copy_down m d s n b ≡ (if leb b d && ltb d (b + n) then m (s - (d - b)) else m b)
unfolding copy_down
copy_down-copied zero m d s b h l = ground arith
copy_down-copied (suc n) m d s b h l =
    rw (copy_down-copied n (poke m d (m s)) (d - 1) (s - 1) b (omega arith) (omega arith))
      (elim (Bool-cases (ltb b d && ltb d (b + suc n))) [
        | inl inside ↦
            let place : s - 1 - (d - 1 - b) ≡ s - (d - b) = ground arith in rw place (ground arith)
        | inr outside ↦ elim (Bool-cases (b == d)) [
          | inl e ↦ let last : s - (d - b) ≡ s = ground arith in rw last (ground arith)
          | inr ne ↦ ground arith
        ]
      ])

-- `memcpy_fast` copies n bytes and changes no other, if the two regions do not overlap or the bytes
-- move to lower addresses.
pub memcpy_fast-copied :
    (m : Memory) (dst src n b : ℕ)
    → (dst ≤ src) ⊎ (src + n ≤ dst)
    → memcpy_fast m dst src n b ≡ copied m dst src n b
unfolding memcpy_fast
memcpy_fast-copied m dst src n b h = elim (Bool-cases (n == 0)) [
  | inl e ↦ rw e (ground arith)
  | inr e ↦ rw e (copy_up-copied n m dst src b h)
]

copied-same :
    (m : Memory) (dst src n b : ℕ)
    → dst ≡ src
    → m b ≡ (if leb dst src then copied m dst src n b else copied m (dst + 1) (src + 1) n b)
copied-same m dst src n b e = elim (Bool-cases (leb dst b)) [
  | inl l ↦ let place : src + (b - dst) ≡ b = ground arith in rw place (ground arith)
  | inr g ↦ ground arith
]

down-copied :
    (m : Memory) (dst src n b : ℕ)
    → (if leb b (dst + n) && ltb (dst + n) (b + n) then m (src + n - (dst + n - b)) else m b)
      ≡ copied m (dst + 1) (src + 1) n b
down-copied m dst src n b = elim (Bool-cases (leb b (dst + n) && ltb (dst + n) (b + n))) [
  | inl inside ↦
      let place : src + n - (dst + n - b) ≡ src + 1 + (b - (dst + 1)) = ground arith in
      rw place (ground arith)
  | inr outside ↦ ground arith
]

-- `memmove_fast` copies n bytes and changes no other when they move to lower addresses; when they
-- move to higher ones it copies the n bytes that lie one address further on, to one address
-- further on, and the first byte of the destination is not written.
pub memmove_fast-copied :
    (m : Memory) (dst src n b : ℕ)
    → memmove_fast m dst src n b
      ≡ (if leb dst src then copied m dst src n b else copied m (dst + 1) (src + 1) n b)
unfolding memmove_fast
memmove_fast-copied m dst src n b = elim (Bool-cases (dst == src)) [
  | inl e ↦ rw e (copied-same m dst src n b (ground arith))
  | inr ne ↦ elim (Bool-cases (n == 0)) [
    | inl z ↦ rw (ne, z) (ground arith)
    | inr some_bytes ↦ elim (Bool-cases (ltb dst src)) [
      | inl lower ↦
          let le : leb dst src ≡ true = ground arith in
          rw (ne, some_bytes, lower, le, copy_up-copied n m dst src b (ground arith))
      | inr higher ↦
          let gt : leb dst src ≡ false = ground arith in
          rw
            (
              ne,
              some_bytes,
              higher,
              gt,
              copy_down-copied n m (dst + n) (src + n) b (ground arith) (omega arith),
            )
            (down-copied m dst src n b)
    ]
  ]
]
