-- ===== src/Console/Buffer/Kept.antt =====
-- The text that a console keeps.
use mathlib.Core.List.{append_assoc, append-nil}
use wolf_os.Base.{
  ℕ, zero, suc, ◌+◌, ◌-◌, ◌≤◌, ◌<◌, ◌≡◌, refl, ap, sym, subst, ◌∙◌, ◌⊎◌, inl, inr, List, [], ◌∷◌,
  ◌++◌, Option, none, some, length, length-append, true, false, leb, ◌==◌, if◌then◌else◌,
  Bool-cases, arith, ◌>>=◌,
}
use wolf_os.Base.Words.{u32}
use wolf_os.Console.Numbers.{Text}
use wolf_os.Util.Strings.{cpu_has_feature, feature_sse}
use wolf_os.Console.Screen.{Screen, gr_renderchar}
use wolf_os.Console.Screen.Cursor.{Shown, gr_renderchar-Shown}
use wolf_os.Console.Buffer.{
  min_capacity, ConsoleEntry, Console, Terminal, Kernel, sizeof_entry, empty_entry, put_char,
  store_char, add_entry, room_in, store_last, put_active, putchar_on, putchar,
}

-- The first n characters of an entry, and the text of a list of entries that begins with the last.
abbrev pub chars : (data_at : ℕ → ℕ) (n : ℕ) → Text
chars data_at zero = []
chars data_at (suc n) = chars data_at n ++ data_at n ∷ []

abbrev pub text_of : List ConsoleEntry → Text
text_of [] = []
text_of (e ∷ older) = text_of older ++ chars e.data_at e.charcount

-- No entry is written behind its end, and the two counts are those of the entries and the characters.
abbrev pub Fit : List ConsoleEntry → Type 0
Fit [] = Unit
Fit (e ∷ older) = (e.charcount < min_capacity) × Fit older

abbrev pub IsKept : Console → Type 0
IsKept c =
    Fit c.from_last
    × (c.entries ≡ u32 (length c.from_last))
    × (c.charcount ≡ u32 (length (text_of c.from_last)))

chars-above :
    (n : ℕ) (d : ℕ → ℕ) (at chr : ℕ)
    → n ≤ at
    → chars (λ i. if i == at then chr else d i) n ≡ chars d n
chars-above zero d at chr le = refl
chars-above (suc n) d at chr le =
    let below : (n == at) ≡ false = ground arith in
    rw (chars-above n d at chr (omega arith), below) refl

chars-put :
    (n : ℕ) (d : ℕ → ℕ) (chr : ℕ)
    → chars (λ i. if i == n then chr else d i) (suc n) ≡ chars d n ++ chr ∷ []
chars-put n d chr =
    let here : (n == n) ≡ true = ground arith in rw (chars-above n d n chr (omega arith), here) refl

put_char-text :
    (chr : ℕ) (e : ConsoleEntry) (older : List ConsoleEntry)
    → text_of (put_char chr e ∷ older) ≡ text_of (e ∷ older) ++ chr ∷ []
unfolding put_char
put_char-text chr e older =
    ap (λ n. text_of older ++ chars (put_char chr e).data_at n) {x = e.charcount + 1}
      {y = suc e.charcount} (omega arith)
    ∙ ap (λ l. text_of older ++ l) (chars-put e.charcount e.data_at chr)
    ∙ sym (append_assoc (text_of older) (chars e.data_at e.charcount) (chr ∷ []))

-- The text grows by the character.
abbrev pub Grows : (chr : ℕ) → (before after : Console) → Type 0
Grows chr before after = text_of after.from_last ≡ text_of before.from_last ++ chr ∷ []

store_char-IsKept :
    (chr : ℕ) (c : Console) (tail : ConsoleEntry) (older : List ConsoleEntry)
    → c.from_last ≡ tail ∷ older
    → tail.charcount < min_capacity - 1
    → IsKept c
    → IsKept (store_char chr c tail older) × Grows chr c (store_char chr c tail older)
unfolding store_char put_char
store_char-IsKept chr c tail older here room (fit, entries, count) =
    let fits : Fit (tail ∷ older) = subst Fit here fit in
    let grown : text_of (put_char chr tail ∷ older) ≡ text_of c.from_last ++ chr ∷ [] =
      put_char-text chr tail older ∙ ap (λ l. text_of l ++ chr ∷ []) (sym here) in
    let more : length (text_of (put_char chr tail ∷ older)) ≡ length (text_of c.from_last) + 1 =
      ap length grown ∙ length-append (text_of c.from_last) (chr ∷ []) in
    (
      ((omega arith, fits.1), entries ∙ ap (λ l. u32 (length l)) here, omega (arith, count, more)),
      grown,
    )

added-IsKept :
    (c : Console)
    → IsKept c
    → let c' = record c { entries = u32 (c.entries + 1); from_last = empty_entry ∷ c.from_last } in
      IsKept c' × (text_of c'.from_last ≡ text_of c.from_last)
added-IsKept c (fit, entries, count) =
    let same : text_of (empty_entry ∷ c.from_last) ≡ text_of c.from_last =
      append-nil (text_of c.from_last) in
    (
      ((omega arith, fit), omega (arith, entries), count ∙ ap (λ l. u32 (length l)) (sym same)),
      same,
    )

module _ {World : Type 0} (kernel : Kernel World) where
  -- The allocator has no memory for an entry.
  abbrev pub IsOut : World → Type 0
  IsOut w = (kernel.kmalloc sizeof_entry w).0 ≡ 0

  -- A console with the same text and a last entry that has room.
  abbrev HasRoom : Console → Option Console × World → Type 0
  HasRoom c out =
      (c' : Console) × (tail : ConsoleEntry) × (older : List ConsoleEntry) × (out.0 ≡ some c')
      × (c'.from_last ≡ tail ∷ older)
      × (tail.charcount < min_capacity - 1)
      × IsKept c'
      × (text_of c'.from_last ≡ text_of c.from_last)

  add_entry-HasRoom :
      (c : Console) (w : World)
      → IsKept c
      → (IsOut w × ((add_entry kernel c w).0 ≡ none)) ⊎ HasRoom c (add_entry kernel c w)
  unfolding add_entry
  add_entry-HasRoom c w kept = elim (Bool-cases ((kernel.kmalloc sizeof_entry w).0 == 0)) [
    | inl e ↦ rw e (inl (ground arith, refl))
    | inr e ↦
        let (kept', same) = added-IsKept c kept in
        rw e (inr (_, empty_entry, c.from_last, refl, refl, omega arith, kept', same))
  ]

  room_in-HasRoom :
      (c : Console) (w : World) (from_last : List ConsoleEntry)
      → c.from_last ≡ from_last
      → IsKept c
      → (IsOut w × ((room_in kernel c w from_last).0 ≡ none))
        ⊎ HasRoom c (room_in kernel c w from_last)
  unfolding room_in
  room_in-HasRoom c w [] here kept = add_entry-HasRoom c w kept
  room_in-HasRoom c w (tail ∷ older) here kept =
      elim (Bool-cases (leb (min_capacity - 1) tail.charcount)) [
        | inl e ↦ rw e (add_entry-HasRoom c w kept)
        | inr e ↦ rw e (inr (c, tail, older, refl, here, ground arith, kept, refl))
      ]

  -- The character is kept and shown, or it is lost since there is no memory for it.
  abbrev pub Puts :
      (chr : ℕ) → Console → (screen : Screen) → (before after : Terminal World) → Type 0
  Puts chr c screen before after =
      (c' : Console) × (after.active_console ≡ some c')
      × IsKept c'
      × ((Grows chr c c'
            × ((screen' : Screen) × (after.screen ≡ some screen') × Shown chr screen screen'))
          ⊎ (IsOut (kernel.outb 0xe9 chr before.world) × (c' ≡ c) × (after.screen ≡ before.screen)))

  module _ (capabilities depth : ℕ) (plain : cpu_has_feature capabilities feature_sse ≡ false)
      (deep : 0 < depth) where
    put_active-Puts :
        (chr : ℕ) (c : Console) (s : Screen) (t : Terminal World) (out : Option Console × World)
        → t.screen ≡ some s
        → IsKept c
        → (IsOut (kernel.outb 0xe9 chr t.world) × (out.0 ≡ none)) ⊎ HasRoom c out
        → Puts chr c s t (put_active kernel capabilities depth chr c t.screen out)
    unfolding put_active store_last store_char
    put_active-Puts chr c s t (none, w) shown kept (inl (short, e)) =
        (c, refl, kept, inr (short, refl, refl))
    put_active-Puts chr c s t (none, w) shown kept (inr (c', tail, older, e, _, _, _, _)) =
        absurd (ground (arith, e))
    put_active-Puts chr c s t (some c1, w) shown kept (inl (short, e)) = absurd (ground (arith, e))
    put_active-Puts chr c s t (some c1, w) shown kept
          (inr (c', tail, older, e, here, room, kept', same)) =
        let is_same : c1 ≡ c' = ground (arith, e) in
        let (stored, grows) = store_char-IsKept chr c' tail older here room kept' in
        let (screen', run, shows) = gr_renderchar-Shown capabilities plain depth chr s deep in
        rw (is_same, here)
          (
            _,
            refl,
            stored,
            inl (
              grows ∙ ap (λ l. l ++ chr ∷ []) same,
              (screen', ap (λ o. o >>= gr_renderchar capabilities depth chr) shown ∙ run, shows),
            ),
          )

    -- In text mode on a processor without SSE, let the console that is active be well kept: no entry is
    -- written behind its end, and the counts are right. Then it still is after `putchar`. The character
    -- is added to the text that it keeps and does to the screen what `Shown` says, where a character
    -- behind the last column only breaks the line; or there is no memory for an entry and neither changes.
    pub putchar-Puts :
        (chr : ℕ) (c : Console) (s : Screen) (t : Terminal World)
        → t.active_console ≡ some c
        → t.screen ≡ some s
        → IsKept c
        → Puts chr c s t (putchar kernel capabilities depth chr t)
    unfolding putchar putchar_on
    putchar-Puts chr c s t active shown kept =
        subst (Puts chr c s t) (sym (ap (putchar_on kernel capabilities depth chr t) active)) (
          put_active-Puts chr c s t (room_in kernel c (kernel.outb 0xe9 chr t.world) c.from_last)
            shown kept (room_in-HasRoom c (kernel.outb 0xe9 chr t.world) c.from_last refl kept))
