-- ===== src/Util/Strings/Compare.antt =====
-- What `strcmp` and `strlen` compute on strings that end.
use wolf_os.Base.{
  ℕ, zero, suc, ◌+◌, ◌<◌, ◌≡◌, ◌≢◌, refl, subst, ap, ap₂, sym, ◌∙◌, ◌⊎◌, inl, inr, true, false, [],
  ◌∷◌, Option, some, length, ◌==◌, Bool-cases, arith,
}
use wolf_os.Base.Machine.{Memory}
use wolf_os.Console.Numbers.{Text}
use wolf_os.Util.Strings.{Sign, difference, above, strcmp, strlen}

-- The memory holds the string: its characters, which are not 0, and a 0 behind them.
abbrev pub Holds : Memory → (p : ℕ) → Text → Type 0
Holds m p [] = m p ≡ 0
Holds m p (c ∷ cs) = (m p ≡ c) × (c ≢ 0) × Holds m (p + 1) cs

-- The walk comes to an end with a difference, which is 0 if and only if P holds.
abbrev pub Decides : Option Sign → Type 0 → Type 0
Decides answer P = (d : Sign) × (answer ≡ some d) × (d ≡ above 0 → P) × (P → d ≡ above 0)

abbrev IsNil : Text → Type 0
IsNil [] = Unit
IsNil (c ∷ cs) = ⊥

abbrev tail_of : Text → Text
tail_of [] = []
tail_of (c ∷ cs) = cs

abbrev head_of : Text → ℕ
head_of [] = 0
head_of (c ∷ cs) = c

strcmp-step :
    (k : ℕ) (m : Memory) (a b : ℕ)
    → m a ≢ 0
    → m a ≡ m b
    → strcmp (suc k) m a b ≡ strcmp k m (a + 1) (b + 1)
unfolding strcmp
strcmp-step k m a b nonzero same = ground (arith, nonzero, same)

-- The walk stops at the end of the first string or at a difference.
strcmp-stop :
    (k : ℕ) (m : Memory) (a b : ℕ)
    → (m a ≡ 0) ⊎ (m a ≢ m b)
    → strcmp (suc k) m a b ≡ some (difference (m a) (m b))
unfolding strcmp
strcmp-stop k m a b stops = ground (arith, stops)

difference-zero : (x y : ℕ) → difference x y ≡ above 0 → x ≡ y
difference-zero x y h = ground arith

difference-same : (x : ℕ) → difference x x ≡ above 0
difference-same x = ground arith

strcmp-differ :
    (k : ℕ) (m : Memory) (a b : ℕ) (P : Type 0) → m a ≢ m b → ¬ P → Decides (strcmp (suc k) m a b) P
strcmp-differ k m a b P differ no_p = (
  difference (m a) (m b),
  strcmp-stop k m a b (inr differ),
  λ e. absurd (differ (difference-zero (m a) (m b) e)),
  λ p. absurd (no_p p),
)

-- `strcmp` of two strings that end comes to its end in a round for each character of the first and one
-- more, and the difference is 0 if and only if the strings are equal.
pub strcmp-Decides :
    (s t : Text) (rounds : ℕ) (m : Memory) (a b : ℕ)
    → Holds m a s
    → Holds m b t
    → length s < rounds
    → Decides (strcmp rounds m a b) (s ≡ t)
strcmp-Decides s t zero m a b hs ht lt = absurd (omega arith)
strcmp-Decides [] [] (suc k) m a b hs ht lt = (
  difference (m a) (m b),
  strcmp-stop k m a b (inl hs),
  λ e. refl,
  λ p. ap₂ difference hs ht ∙ difference-same 0,
)
strcmp-Decides [] (d ∷ ds) (suc k) m a b hs (at, nonzero, rest) lt =
    strcmp-differ k m a b ([] ≡ d ∷ ds) (λ e. nonzero (sym at ∙ sym e ∙ hs)) (λ p. subst IsNil p tt)
strcmp-Decides (c ∷ cs) [] (suc k) m a b (at, nonzero, rest) ht lt =
    strcmp-differ k m a b (c ∷ cs ≡ []) (λ e. nonzero (sym at ∙ e ∙ ht))
      (λ p. subst IsNil (sym p) tt)
strcmp-Decides (c ∷ cs) (d ∷ ds) (suc k) m a b (at, nonzero, rest) (at', nonzero', rest') lt =
    elim (Bool-cases (c == d)) [
      | inl e ↦
          let same : c ≡ d = ground arith in
          let (v, answer, zero_then, then_zero) =
            strcmp-Decides cs ds k m (a + 1) (b + 1) rest rest' (omega arith) in
          (
            v,
            strcmp-step k m a b (λ z. nonzero (sym at ∙ z)) (at ∙ same ∙ sym at') ∙ answer,
            λ z. ap₂ (λ x xs. x ∷ xs) same (zero_then z),
            λ p. then_zero (ap tail_of p),
          )
      | inr ne ↦
          let differ : c ≢ d = ground arith in
          strcmp-differ k m a b (c ∷ cs ≡ d ∷ ds) (λ e. differ (sym at ∙ e ∙ at'))
            (λ p. differ (ap head_of p))
    ]

-- `strlen` counts the characters of a string that ends.
pub strlen-length :
    (s : Text) (rounds : ℕ) (m : Memory) (p : ℕ)
    → Holds m p s
    → length s < rounds
    → strlen rounds m p ≡ some (length s)
unfolding strlen
strlen-length s zero m p h lt = absurd (omega arith)
strlen-length [] (suc k) m p h lt = let end : (m p == 0) ≡ true = ground (arith, h) in rw end refl
strlen-length (c ∷ cs) (suc k) m p (at, nonzero, rest) lt =
    let goes_on : (m p == 0) ≡ false = ground (arith, at, nonzero) in
    rw (goes_on, strlen-length cs k m (p + 1) rest (omega arith)) refl
