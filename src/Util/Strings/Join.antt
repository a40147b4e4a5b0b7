-- ===== src/Util/Strings/Join.antt =====
-- How copies of parts of a region join to one copy.
use wolf_os.Base.{
  ℕ, zero, suc, ◌+◌, ◌-◌, ◌*◌, ◌≤◌, ◌≡◌, ap, sym, ◌∙◌, ◌⊎◌, leb, ◌==◌, Bool-cases, inl, inr, arith,
}
use wolf_os.Base.Machine.{Memory, poke}
use wolf_os.Util.Strings.{copy_up}
use wolf_os.Util.Strings.Copy.{copied, copy_up-copied}
use wolf_os.Util.Strings.Blocks.{move_blocks}

-- Two copies, of n bytes and of the k bytes behind them, are one; so are those of k bytes and of the n
-- bytes before them.
pub copied-up :
    (m : Memory) (d s n k : ℕ)
    → (d ≤ s) ⊎ (s + (n + k) ≤ d)
    → copied (copied m d s n) (d + n) (s + n) k ≡ copied m d s (n + k)
copied-up m d s n k h i b =
    let at : copied (copied m d s n) (d + n) (s + n) k b ≡ copied m d s (n + k) b =
      elim (Bool-cases (leb (d + n) b)) [
        | inl after ↦
            let place : s + n + (b - (d + n)) ≡ s + (b - d) = ground arith in
            rw place (ground (arith, h))
        | inr before ↦ ground arith
      ] in
    at i

pub copied-down :
    (m : Memory) (d s n k : ℕ)
    → s ≤ d
    → copied (copied m (d + k) (s + k) n) d s k ≡ copied m d s (k + n)
copied-down m d s n k h i b =
    let at : copied (copied m (d + k) (s + k) n) d s k b ≡ copied m d s (k + n) b =
      elim (Bool-cases (leb (d + k) b)) [
        | inl after ↦
            let place : s + k + (b - (d + k)) ≡ s + (b - d) = ground arith in
            rw place (ground arith)
        | inr before ↦ ground arith
      ] in
    at i

pub copied-none : (m : Memory) (d s : ℕ) → copied m d s 0 ≡ m
copied-none m d s i b = let at : copied m d s 0 b ≡ m b = ground arith in at i

pub poke-copied : (m : Memory) (d s : ℕ) → poke m d (m s) ≡ copied m d s 1
poke-copied m d s i b =
    let at : poke m d (m s) b ≡ copied m d s 1 b = elim (Bool-cases (b == d)) [
      | inl e ↦ let place : s + (b - d) ≡ s = ground arith in rw (e, place) (ground arith)
      | inr ne ↦ ground arith
    ] in
    at i

pub copy_up_eq : (m : Memory) (d s n : ℕ) → (d ≤ s) ⊎ (s + n ≤ d) → copy_up m d s n ≡ copied m d s n
copy_up_eq m d s n h i b = copy_up-copied n m d s b h i

pub move_blocks_eq :
    (k : ℕ) (m : Memory) (d s : ℕ)
    → (d ≤ s) ⊎ (s + 16 * k ≤ d)
    → move_blocks m d s k ≡ copied m d s (16 * k)
unfolding move_blocks
move_blocks_eq zero m d s h = sym (copied-none m d s)
move_blocks_eq (suc k) m d s h =
    move_blocks_eq k (copied m d s 16) (d + 16) (s + 16) (ground (arith, h))
    ∙ copied-up m d s 16 (16 * k) (ground (arith, h))
    ∙ ap (copied m d s) (omega arith)
