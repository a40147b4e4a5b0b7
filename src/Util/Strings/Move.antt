-- ===== src/Util/Strings/Move.antt =====
-- What the copies in blocks leave in memory.
use wolf_os.Base.{
  ℕ, ◌+◌, ◌-◌, ◌*◌, ◌/◌, ◌%◌, ◌^◌, ◌≤◌, ◌<◌, ◌≡◌, ap, sym, subst, ◌∙◌, ◌⊎◌, true, ltb, leb,
  Bool-cases, inl, inr, arith,
}
use wolf_os.Base.Bits.{bit_and_mask}
use wolf_os.Base.Machine.{Memory}
use wolf_os.Util.Strings.{align_bytes}
use wolf_os.Util.Strings.Copy.{copied}
use wolf_os.Util.Strings.Blocks.{rounds_of, blocks_up, memcpy_sse, memmove_sse}
use wolf_os.Util.Strings.Upwards.{
  aligned_up, moved_bytes, up-copied, align_up-aligned, blocks_up-copied,
}
use wolf_os.Util.Strings.Downwards.{down-copied}

copied_self : (m : Memory) (d s n : ℕ) → d ≡ s → m ≡ copied m d s n
copied_self m d s n e i b =
    let at : m b ≡ copied m d s n b = elim (Bool-cases (leb d b)) [
      | inl l ↦ let place : s + (b - d) ≡ b = ground arith in rw place (ground arith)
      | inr g ↦ ground arith
    ] in
    at i

-- For 31 bytes or more, enough for the alignment and one block, `memmove_sse` copies as a move should,
-- whichever way the two regions overlap: the bytes of the destination are those that the source held,
-- and no other byte changes.
pub memmove_sse-copied : (m : Memory) (d s n : ℕ) → 31 ≤ n → memmove_sse m d s n ≡ copied m d s n
unfolding memmove_sse
memmove_sse-copied m d s n enough = elim (Bool-cases (ltb d s)) [
  | inl up ↦
      let asked : moved_bytes d n ≡ n = ground (arith, bit_and_mask 4 d) in
      rw up (up-copied m d s n (inl (ground arith)) ∙ ap (copied m d s) asked)
  | inr not_up ↦ elim (Bool-cases (ltb s d)) [
    | inl down ↦ rw (not_up, down) (down-copied m d s n (ground arith) enough)
    | inr same ↦ let e : d ≡ s = ground arith in rw (not_up, same) (copied_self m d s n e)
  ]
]

-- For fewer bytes, when less than 16 are left after the alignment, a move to lower addresses by
-- `memmove_sse` goes on for 2 ^ 32 blocks behind the bytes that it was asked to move.
pub memmove_sse-overruns :
    (m : Memory) (d s n : ℕ)
    → d < s
    → n < align_bytes d n + 16
    → memmove_sse m d s n ≡ copied m d s (n + 16 * 2 ^ 32)
unfolding memmove_sse
memmove_sse-overruns m d s n up few =
    let lower : ltb d s ≡ true = ground arith in
    let more : moved_bytes d n ≡ n + 16 * 2 ^ 32 = ground arith in
    rw lower (up-copied m d s n (inl (omega arith)) ∙ ap (copied m d s) more)

-- Printing leaves the n bytes from p on alone.
abbrev pub Leaves : (putchar : ℕ → Memory → Memory) → (p n : ℕ) → Type 0
Leaves putchar p n = (c : ℕ) (m : Memory) (k : ℕ) → (n ≤ k) ⊎ (putchar c m (p + k) ≡ m (p + k))

Leaves-at :
    (putchar : ℕ → Memory → Memory) (p n k : ℕ) (m : Memory)
    → Leaves putchar p n
    → k < n
    → putchar b'w' m (p + k) ≡ m (p + k)
Leaves-at putchar p n k m l small = elim (l b'w' m k) [
  | inl far ↦ absurd (omega arith)
  | inr same ↦ same
]

copied-inside : (m : Memory) (d s n k : ℕ) → k < n → copied m d s n (d + k) ≡ m (s + k)
copied-inside m d s n k h =
    let place : s + (d + k - d) ≡ s + k = omega arith in rw place (ground arith)

-- `memcpy_sse` of 31 bytes or more: every byte of the destination is what the byte at its place in the
-- source was, if printing leaves both regions alone and they do not overlap, or the bytes move to
-- lower addresses.
pub memcpy_sse-copied :
    (putchar : ℕ → Memory → Memory) (m : Memory) (d s n k : ℕ)
    → Leaves putchar d n
    → Leaves putchar s n
    → (d ≤ s) ⊎ (s + n ≤ d)
    → 31 ≤ n
    → k < n
    → memcpy_sse putchar m d s n (d + k) ≡ m (s + k)
unfolding memcpy_sse aligned_up rounds_of
memcpy_sse-copied putchar m d s n k at_d at_s h enough small =
    let a = align_bytes d n in
    let few : a ≤ 15 = ground (arith, bit_and_mask 4 d) in
    let m1 = copied m d s a in
    let m2 = putchar b'w' m1 in
    let left : 16 * rounds_of ((n - a) / 16) + (n - a) % 16 ≡ n - a = ground arith in
    let apart : (d ≤ s) ⊎ (s + n ≤ d) → (d + a ≤ s + a) ⊎ (s + a + (n - a) ≤ d + a) =
      λ o. ground arith in
    let run : memcpy_sse putchar m d s n ≡ copied m2 (d + a) (s + a) (n - a) =
      ap (λ w. blocks_up (record w { memory = putchar b'w' w.memory })) (align_up-aligned n m d s h)
      ∙ blocks_up-copied m2 (d + a) (s + a) (n - a)
          (subst (λ x. (d + a ≤ s + a) ⊎ (s + a + x ≤ d + a)) (sym left) (apart h))
      ∙ ap (copied m2 (d + a) (s + a)) left in
    ap (λ f. f (d + k)) run ∙ elim (Bool-cases (ltb k a)) [
      | inl early ↦
          let before : copied m2 (d + a) (s + a) (n - a) (d + k) ≡ m2 (d + k) = ground arith in
          before ∙ Leaves-at putchar d n k m1 at_d small ∙ copied-inside m d s a k (ground arith)
      | inr late ↦
          let ed : d + k ≡ d + a + (k - a) = ground arith in
          let es : s + a + (k - a) ≡ s + k = ground arith in
          let read : m1 (s + k) ≡ m (s + k) = ground (arith, h) in
          ap (copied m2 (d + a) (s + a) (n - a)) ed
          ∙ copied-inside m2 (d + a) (s + a) (n - a) (k - a) (ground arith)
          ∙ ap m2 es
          ∙ Leaves-at putchar s n k m1 at_s small
          ∙ read
    ]
