-- ===== src/Drivers/Model/Finding.antt =====
-- Which driver `find_driver` finds.
use mathlib.Core.List.{append_assoc, append-nil}
use wolf_os.Base.{
  ℕ, ◌+◌, ◌*◌, ◌^◌, ◌≤◌, ◌<◌, ◌≡◌, refl, sym, ◌∙◌, ◌⊎◌, inl, inr, true, false, ◌&&◌, List, [], ◌∷◌,
  ◌++◌, Option, none, some, ltb, leb, ◌==◌, if◌then◌else◌, Bool-cases, arith,
}
use wolf_os.Base.Words.{u16, u32, ◌<<◌}
use wolf_os.Drivers.Model.{
  DeviceDriver, Candidate, class_loop, vidpid_loop, driver_loop, find_driver,
}

abbrev pub All : {A : Type 0} → (A → Type 0) → List A → Type 0
All P [] = Unit
All P (x ∷ xs) = P x × All P xs

All-snoc :
    {A : Type 0} (P : A → Type 0) (xs : List A) (x : A) → All P xs → P x → All P (xs ++ x ∷ [])
All-snoc P [] x h p = (p, tt)
All-snoc P (y ∷ ys) x (q, h) p = (q, All-snoc P ys x h p)

All-map :
    {A : Type 0} {P Q : A → Type 0} → ((x : A) → P x → Q x) → (xs : List A) → All P xs → All Q xs
All-map f [] h = tt
All-map f (x ∷ xs) (p, h) = (f x p, All-map f xs h)

All-append : {A : Type 0} (P : A → Type 0) (xs ys : List A) → All P xs → All P ys → All P (xs ++ ys)
All-append P [] ys h k = k
All-append P (x ∷ xs) ys (p, h) k = (p, All-append P xs ys h k)

abbrev pub OneOf : ℕ → List ℕ → Type 0
OneOf n [] = ⊥
OneOf n (x ∷ xs) = (x ≡ n) ⊎ OneOf n xs

vidpid_loop-true : (n : ℕ) (xs : List ℕ) → vidpid_loop n xs ≡ true → OneOf n xs
unfolding vidpid_loop
vidpid_loop-true n [] h = absurd (ground arith)
vidpid_loop-true n (x ∷ xs) h = elim (Bool-cases (x == n)) [
  | inl e ↦ inl (ground arith)
  | inr ne ↦
      let step : vidpid_loop n (x ∷ xs) ≡ vidpid_loop n xs = rw ne in
      inr (vidpid_loop-true n xs (sym step ∙ h))
]

vidpid_loop-false : (n : ℕ) (xs : List ℕ) → vidpid_loop n xs ≡ false → ¬ OneOf n xs
unfolding vidpid_loop
vidpid_loop-false n [] h = λ m. m
vidpid_loop-false n (x ∷ xs) h = elim (Bool-cases (x == n)) [
  | inl e ↦
      let step : vidpid_loop n (x ∷ xs) ≡ true = rw e in
      let no : true ≡ false = sym step ∙ h in absurd (ground arith)
  | inr ne ↦
      let step : vidpid_loop n (x ∷ xs) ≡ vidpid_loop n xs = rw ne in
      λ m. elim m [
        | inl e ↦ absurd (ground arith)
        | inr m' ↦ vidpid_loop-false n xs (sym step ∙ h) m'
      ]
]

module _ (classdata max : ℕ) (d : DeviceDriver) where
  abbrev taken : Candidate
  taken = record { generic_found = some d; generic_priority = d.driver_class_priority }

  class_loop-taken : (cs : List ℕ) → class_loop classdata max d cs taken ≡ taken
  unfolding class_loop
  class_loop-taken [] = refl
  class_loop-taken (c ∷ cs) =
      elim (Bool-cases (
        (c == classdata)
        && leb d.driver_class_priority d.driver_class_priority
        && ltb d.driver_class_priority max)) [
          | inl e ↦ rw e (class_loop-taken cs)
          | inr e ↦ rw e (class_loop-taken cs)
        ]

  class_loop-all :
      (cs : List ℕ) (g : Candidate)
      → class_loop classdata max d cs g ≡ (
          if vidpid_loop classdata cs
            && (leb g.generic_priority d.driver_class_priority && ltb d.driver_class_priority max)
          then taken
          else g)
  unfolding class_loop vidpid_loop
  class_loop-all [] g = refl
  class_loop-all (c ∷ cs) g = elim (Bool-cases (c == classdata)) [
    | inl e ↦
        elim (Bool-cases
          (leb g.generic_priority d.driver_class_priority && ltb d.driver_class_priority max)) [
            | inl h ↦ rw (e, h, class_loop-taken cs)
            | inr h ↦
                rw (e, h, class_loop-all cs g, h)
                  (elim (Bool-cases (vidpid_loop classdata cs)) [ inl t ↦ rw t | inr f ↦ rw f ])
          ]
    | inr e ↦ rw (e, class_loop-all cs g)
  ]

-- A driver that names the device, and one that names its class and has a priority under the limit.
abbrev pub Exact : (vidpid : ℕ) → DeviceDriver → Type 0
Exact vidpid d = OneOf vidpid d.driver_vidpid

abbrev pub Eligible : (classdata max : ℕ) → DeviceDriver → Type 0
Eligible classdata max d = OneOf classdata d.driver_classes × (d.driver_class_priority < max)

-- d has the highest priority of the eligible drivers, and is the last of those that have it.
abbrev pub IsChoice : (classdata max : ℕ) → List DeviceDriver → DeviceDriver → Type 0
IsChoice classdata max drivers d =
    (before : List DeviceDriver) × (after : List DeviceDriver) × (drivers ≡ before ++ d ∷ after)
    × Eligible classdata max d
    × All (λ e. (¬ Eligible classdata max e) ⊎ (e.driver_class_priority ≤ d.driver_class_priority))
        before
    × All (λ e. (¬ Eligible classdata max e) ⊎ (e.driver_class_priority < d.driver_class_priority))
        after

-- The first driver that names the device, or else the choice by the class.
abbrev pub Finds : (classdata vidpid max : ℕ) → List DeviceDriver → Option DeviceDriver → Type 0
Finds classdata vidpid max drivers none =
    All (λ e. ¬ Exact vidpid e) drivers × All (λ e. ¬ Eligible classdata max e) drivers
Finds classdata vidpid max drivers (some d) =
    ((before : List DeviceDriver) × (after : List DeviceDriver) × (drivers ≡ before ++ d ∷ after)
      × Exact vidpid d
      × All (λ e. ¬ Exact vidpid e) before)
    ⊎ (All (λ e. ¬ Exact vidpid e) drivers × IsChoice classdata max drivers d)

abbrev Best : (classdata max : ℕ) → List DeviceDriver → Option DeviceDriver → ℕ → Type 0
Best classdata max done none p = (p ≡ 0) × All (λ e. ¬ Eligible classdata max e) done
Best classdata max done (some d) p = (p ≡ d.driver_class_priority) × IsChoice classdata max done d

module _ (classdata max : ℕ) where
  Best-below :
      (done : List DeviceDriver) (found : Option DeviceDriver) (p q : ℕ)
      → Best classdata max done found p
      → p ≤ q
      → All (λ e. (¬ Eligible classdata max e) ⊎ (e.driver_class_priority ≤ q)) done
  Best-below done none p q (z, h) le = All-map (λ e n. inl n) done h
  Best-below done (some d) p q (e, (before, after, split, ok, hb, ha)) le = rw split (
      All-append (λ x. (¬ Eligible classdata max x) ⊎ (x.driver_class_priority ≤ q)) before
        (d ∷ after)
        (All-map (λ x h. elim h [ inl n ↦ inl n | inr l ↦ inr (omega (arith, e)) ]) before hb)
        (
          inr (omega (arith, e)),
          All-map (λ x h. elim h [ inl n ↦ inl n | inr l ↦ inr (omega (arith, e)) ]) after ha,
        ))

  Best-keep :
      (done : List DeviceDriver) (found : Option DeviceDriver) (p : ℕ) (d : DeviceDriver)
      → Best classdata max done found p
      → (¬ Eligible classdata max d) ⊎ (d.driver_class_priority < p)
      → Best classdata max (done ++ d ∷ []) found p
  Best-keep done none p d (z, h) off = (
    z,
    All-snoc (λ e. ¬ Eligible classdata max e) done d h
        (elim off [ inl n ↦ n | inr l ↦ absurd (omega (arith, z)) ]),
  )
  Best-keep done (some d0) p d (e, (before, after, split, ok, hb, ha)) off = (
    e,
    (
      before,
      after ++ d ∷ [],
      rw split (append_assoc before (d0 ∷ after) (d ∷ [])),
      ok,
      hb,
      All-snoc
          (λ x. (¬ Eligible classdata max x) ⊎ (x.driver_class_priority < d0.driver_class_priority))
          after d ha (elim off [ inl n ↦ inl n | inr l ↦ inr (omega (arith, e)) ]),
    ),
  )

  Best-class_loop :
      (done : List DeviceDriver) (g : Candidate) (d : DeviceDriver)
      → Best classdata max done g.generic_found g.generic_priority
      → Best classdata max
          (done ++ d ∷ [])
          (class_loop classdata max d d.driver_classes g).generic_found
          (class_loop classdata max d d.driver_classes g).generic_priority
  Best-class_loop done g d best =
      let p = g.generic_priority in
      let q = d.driver_class_priority in
      rw (class_loop-all classdata max d d.driver_classes g)
        (elim (Bool-cases (vidpid_loop classdata d.driver_classes)) [
          | inl m ↦ elim (Bool-cases (leb p q && ltb q max)) [
            | inl t ↦
                rw (m, t)
                  (
                    refl,
                    (
                      done,
                      [],
                      refl,
                      (vidpid_loop-true classdata d.driver_classes m, ground arith),
                      Best-below done g.generic_found p q best (ground arith),
                      tt,
                    ),
                  )
            | inr f ↦
                rw (m, f)
                  (Best-keep done g.generic_found p d best (elim (Bool-cases (ltb q max)) [
                    | inl t ↦ inr (ground arith)
                    | inr n ↦ inl (λ el. absurd (ground (arith, el.1)))
                  ]))
          ]
          | inr f ↦ rw f (
              Best-keep done g.generic_found p d best
                (inl (λ el. vidpid_loop-false classdata d.driver_classes f el.0)))
        ])

  -- What the loop returns at the end of the list.
  Best-Finds :
      (vidpid : ℕ) (done : List DeviceDriver) (found : Option DeviceDriver) (p : ℕ)
      → Best classdata max done found p
      → All (λ e. ¬ Exact vidpid e) done
      → Finds classdata vidpid max done found
  Best-Finds vidpid done none p best none_before = (none_before, best.1)
  Best-Finds vidpid done (some d) p best none_before = inr (none_before, best.1)

  driver_loop-Finds :
      (vidpid : ℕ) (done ds : List DeviceDriver) (g : Candidate)
      → Best classdata max done g.generic_found g.generic_priority
      → All (λ e. ¬ Exact vidpid e) done
      → Finds classdata vidpid max (done ++ ds) (driver_loop classdata vidpid max ds g)
  unfolding driver_loop
  driver_loop-Finds vidpid done [] g best none_before =
      rw (append-nil done)
        (Best-Finds vidpid done g.generic_found g.generic_priority best none_before)
  driver_loop-Finds vidpid done (d ∷ ds) g best none_before =
      elim (Bool-cases (vidpid_loop vidpid d.driver_vidpid)) [
        | inl t ↦
            rw t (inl (done, ds, refl, vidpid_loop-true vidpid d.driver_vidpid t, none_before))
        | inr f ↦
            let ne : ¬ Exact vidpid d = vidpid_loop-false vidpid d.driver_vidpid f in
            rw (f, ← append_assoc done (d ∷ []) ds)
              (driver_loop-Finds vidpid (done ++ d ∷ []) ds
                (class_loop classdata max d d.driver_classes g) (Best-class_loop done g d best)
                (All-snoc (λ e. ¬ Exact vidpid e) done d none_before ne))
      ]

-- `find_driver` gives the first driver that names the device by vendor and product, whatever the limit
-- on the priority is; if there is none, the driver that names the device's class and has the highest
-- priority under the limit, the last such driver of the list; and none if there is no such driver.
pub find_driver-Finds :
    (drivers : List DeviceDriver) (class subclass vid pid max : ℕ)
    → class < 256
    → subclass < 256
    → vid < 2 ^ 16
    → pid < 2 ^ 16
    → Finds
        (class * 256 + subclass)
        (vid * 2 ^ 16 + pid)
        max
        drivers
        (find_driver drivers class subclass vid pid max)
unfolding find_driver
find_driver-Finds drivers class subclass vid pid max hc hs hv hp =
    let class_code : u16 ((class << 8) + subclass) ≡ class * 256 + subclass = omega arith in
    let device : u32 ((vid << 16) + pid) ≡ vid * 2 ^ 16 + pid = omega arith in
    rw (class_code, device)
      (driver_loop-Finds (class * 256 + subclass) max (vid * 2 ^ 16 + pid) [] drivers
        (record { generic_found = none; generic_priority = 0 }) (refl, tt) tt)
