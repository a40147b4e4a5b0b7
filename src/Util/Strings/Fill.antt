-- ===== src/Util/Strings/Fill.antt =====
-- What the routines that fill memory leave in it.
use wolf_os.Base.{
  ℕ, zero, suc, ◌+◌, ◌-◌, ◌*◌, ◌/◌, ◌%◌, ◌^◌, ◌≤◌, ◌<◌, ◌≡◌, ap, ◌∙◌, true, ◌&&◌, some, ltb, leb,
  ◌==◌, if◌then◌else◌, Bool-cases, inl, inr, arith,
}
use wolf_os.Base.Words.{u8}
use wolf_os.Base.Bits.{bit_and_mask}
use wolf_os.Base.Machine.{Memory, poke}
use wolf_os.Util.Strings.{
  fill, memset_fast, store_chunk, store_chunks, align_bytes, splat, memset_sse, memset,
  cpu_has_feature, feature_sse,
}

-- n bytes from p on are v, all others as before.
abbrev pub filled : Memory → (p v n : ℕ) → Memory
filled m p v n b = if leb p b && ltb b (p + n) then v else m b

fill-filled : (n : ℕ) (m : Memory) (p v b : ℕ) → fill m p v n b ≡ filled m p v n b
unfolding fill
fill-filled zero m p v b = ground arith
fill-filled (suc n) m p v b = rw (fill-filled n (poke m p v) (p + 1) v b) (ground arith)

fill_eq : (m : Memory) (p v n : ℕ) → fill m p v n ≡ filled m p v n
fill_eq m p v n i b = fill-filled n m p v b i

filled-none : (m : Memory) (p v : ℕ) → m ≡ filled m p v 0
filled-none m p v i b = let here : m b ≡ filled m p v 0 b = ground arith in here i

filled-append :
    (m : Memory) (p v n k : ℕ) → filled (filled m p v n) (p + n) v k ≡ filled m p v (n + k)
filled-append m p v n k i b =
    let here : filled (filled m p v n) (p + n) v k b ≡ filled m p v (n + k) b = ground arith in
    here i

-- The word that holds a byte four times.
times-digit : (v r : ℕ) → v < 256 → r < 4 → 0x0101_0101 * v / 2 ^ (8 * r) % 256 ≡ v
times-digit v zero h l = omega arith
times-digit v (suc zero) h l = omega arith
times-digit v (suc (suc zero)) h l = omega arith
times-digit v (suc (suc (suc zero))) h l = omega arith
times-digit v (suc (suc (suc (suc r)))) h l = absurd (omega arith)

splat-times : (value : ℕ) → splat value ≡ 0x0101_0101 * u8 value
splat-times value = ground (arith, bit_and_mask 8 value)

splat-digit : (value k : ℕ) → splat value / 2 ^ (8 * (k % 4)) % 256 ≡ u8 value
splat-digit value k =
    rw (splat-times value) (times-digit (u8 value) (k % 4) (omega arith) (omega arith))

store_chunk-filled :
    (m : Memory) (p value : ℕ)
    → p % 16 ≡ 0
    → store_chunk m p (splat value) ≡ some (filled m p (u8 value) 16)
unfolding store_chunk
store_chunk-filled m p value h =
    let aligned : (p % 16 == 0) ≡ true = ground arith in
    rw aligned
      (ap some (λ i b. if leb p b && ltb b (p + 16) then splat-digit value (b - p) i else m b))

store_chunks-filled :
    (k : ℕ) (m : Memory) (p value : ℕ)
    → p % 16 ≡ 0
    → store_chunks m p (splat value) k ≡ some (filled m p (u8 value) (16 * k))
unfolding store_chunks
store_chunks-filled zero m p value h = ap some (filled-none m p (u8 value))
store_chunks-filled (suc k) m p value h = rw (store_chunk-filled m p value h) (
    store_chunks-filled k (filled m p (u8 value) 16) (p + 16) value (omega arith)
    ∙ ap some (filled-append m p (u8 value) 16 (16 * k))
    ∙ ap (λ n. some (filled m p (u8 value) n)) (omega arith))

-- The chunks of `memset_sse` start at a multiple of 16, if there are any.
aligned_start : (dst n : ℕ) → 16 ≤ n - align_bytes dst n → (dst + align_bytes dst n) % 16 ≡ 0
aligned_start dst n h = ground (arith, bit_and_mask 4 dst)

align_bytes-le : (dst n : ℕ) → align_bytes dst n ≤ n
align_bytes-le dst n = ground (arith, bit_and_mask 4 dst)

middle-filled :
    (m : Memory) (dst value n : ℕ)
    → store_chunks m (dst + align_bytes dst n) (splat value) ((n - align_bytes dst n) / 16)
      ≡ some (filled m (dst + align_bytes dst n) (u8 value) (16 * ((n - align_bytes dst n) / 16)))
unfolding store_chunks
middle-filled m dst value n =
    let a = align_bytes dst n in
    elim (Bool-cases (leb 16 (n - a))) [
      | inl h ↦
          store_chunks-filled ((n - a) / 16) m (dst + a) value (aligned_start dst n (ground arith))
      | inr h ↦
          let few : (n - a) / 16 ≡ 0 = ground arith in
          rw few (ap some (filled-none m (dst + a) (u8 value)))
    ]

memset_sse-filled :
    (m : Memory) (dst value n : ℕ) → memset_sse m dst value n ≡ some (filled m dst (u8 value) n)
unfolding memset_sse
memset_sse-filled m dst value n =
    let v = u8 value in
    let a = align_bytes dst n in
    let k = 16 * ((n - a) / 16) in
    let whole : a + k + (n - a) % 16 ≡ n = omega (arith, align_bytes-le dst n) in
    let start : dst + a + k ≡ dst + (a + k) = omega arith in
    rw
      (
        fill_eq m dst v a,
        middle-filled (filled m dst v a) dst value n,
        filled-append m dst v a k,
        start,
        fill_eq (filled m dst v (a + k)) (dst + (a + k)) v ((n - a) % 16),
        filled-append m dst v (a + k) ((n - a) % 16),
      )
      (ap (λ x. some (filled m dst v x)) whole)

pub memset_fast-filled :
    (m : Memory) (dst value n : ℕ) → memset_fast m dst value n ≡ filled m dst (u8 value) n
unfolding memset_fast
memset_fast-filled m dst value n = elim (Bool-cases (n == 0)) [
  | inl e ↦ let nothing : n ≡ 0 = ground arith in rw (e, nothing) (filled-none m dst (u8 value))
  | inr e ↦ rw e (fill_eq m dst (u8 value) n)
]

-- `memset` never faults, and sets the n bytes from the address on to the low byte of the value and no
-- other, whether it fills by bytes or, on a processor with SSE, in aligned blocks of 16 bytes.
pub memset-filled :
    (capabilities : ℕ) (m : Memory) (dst value n : ℕ)
    → memset capabilities m dst value n ≡ some (filled m dst (u8 value) n)
unfolding memset
memset-filled capabilities m dst value n =
    elim (Bool-cases (cpu_has_feature capabilities feature_sse)) [
      | inl e ↦ rw e (memset_sse-filled m dst value n)
      | inr e ↦ rw e (ap some (memset_fast-filled m dst value n))
    ]
