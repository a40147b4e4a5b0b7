-- ===== src/Progman/Elf/Names.antt =====
-- The test by which the loader compares a name in memory with a literal, against `strcmp`.
use wolf_os.Base.{ℕ, ◌+◌, ◌<◌, ◌≡◌, refl, subst, ap₂, true, [], ◌∷◌, length, arith}
use wolf_os.Base.Machine.{Memory}
use wolf_os.Console.Numbers.{Text}
use wolf_os.Util.Strings.{strcmp}
use wolf_os.Util.Strings.Compare.{Holds, Decides, strcmp-Decides}
use wolf_os.Progman.Elf.Symbols.{equals_text}

equals_text_refl : (t : Text) (m : Memory) (p : ℕ) → Holds m p t → equals_text m p t ≡ true
unfolding equals_text
equals_text_refl [] m p h = ground (arith, h)
equals_text_refl (c ∷ cs) m p (at, nonzero, rest) =
    ground (arith, at, equals_text_refl cs m (p + 1) rest)

equals_text-same :
    (s t : Text) (m : Memory) (p q : ℕ)
    → Holds m p s
    → Holds m q t
    → equals_text m p t ≡ true
    → s ≡ t
unfolding equals_text
equals_text-same [] [] m p q hs ht e = refl
equals_text-same [] (d ∷ ds) m p q hs (at, nonzero, rest) e =
    absurd (ground (arith, hs, nonzero, e))
equals_text-same (c ∷ cs) [] m p q (at, nonzero, rest) ht e =
    absurd (ground (arith, at, nonzero, e))
equals_text-same (c ∷ cs) (d ∷ ds) m p q (at, nonzero, rest) (at', nonzero', rest') e =
    let same : c ≡ d = ground (arith, at, e) in
    let later : equals_text m (p + 1) ds ≡ true = ground (arith, e) in
    ap₂ (λ x xs. x ∷ xs) same (equals_text-same cs ds m (p + 1) (q + 1) rest rest' later)

-- For strings that end, `strcmp` gives 0 if and only if the loader's test of the first against the
-- characters of the second succeeds.
pub equals_text-Decides :
    (s t : Text) (rounds : ℕ) (m : Memory) (a b : ℕ)
    → Holds m a s
    → Holds m b t
    → length s < rounds
    → Decides (strcmp rounds m a b) (equals_text m a t ≡ true)
equals_text-Decides s t rounds m a b hs ht lt =
    let (d, answer, zero_then, then_zero) = strcmp-Decides s t rounds m a b hs ht lt in
    (
      d,
      answer,
      λ z. subst (λ x. equals_text m a x ≡ true) (zero_then z) (equals_text_refl s m a hs),
      λ e. then_zero (equals_text-same s t m a b hs ht e),
    )
