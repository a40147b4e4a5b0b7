-- ===== src/Console/Printf/Pieces.antt =====
-- `printf` against a description of a message as a list of pieces, each with its place in the
-- format, its argument and what it shows.
use wolf_os.Base.{
  ℕ, ◌^◌, ◌<◌, ◌≡◌, ◌≢◌, refl, false, List, [], ◌∷◌, ◌++◌, Option, some, ◌==◌, arith,
}
use wolf_os.Base.Words.{u8}
use wolf_os.Console.Numbers.{Text, decimal, hexadecimal}
use wolf_os.Console.Numbers.Digits.{Prints}
use wolf_os.Console.Numbers.Signed.{
  ShowsSigned, ShowsPointer, printed32, printed64, printed_ptr, print_signed32-ShowsSigned,
  print_signed64-ShowsSigned,
}
use wolf_os.Console.Printf.{
  Arg, int, wide, str, ptr, text_or_null, conversion, long_conversion, plain, format, printf, ◌>>=◌,
}

pub data Piece : Type 0 where
  literal : ℕ → Piece
  percent_sign : Piece
  character : ℕ → Piece
  string : Option Text → Piece
  signed32 unsigned32 hex32 pointer : ℕ → Piece
  signed64 unsigned64 hex64 : ℕ → Piece

abbrev pub directive : ℕ → List ℕ
directive c = b'%' ∷ c ∷ []

abbrev pub long_directive : ℕ → List ℕ
long_directive c = b'%' ∷ b'l' ∷ c ∷ []

abbrev pub place : Piece → List ℕ
place (literal c) = c ∷ []
place percent_sign = directive b'%'
place (character c) = directive b'c'
place (string s) = directive b's'
place (signed32 v) = directive b'd'
place (unsigned32 v) = directive b'u'
place (hex32 v) = directive b'x'
place (pointer v) = directive b'p'
place (signed64 v) = long_directive b'd'
place (unsigned64 v) = long_directive b'u'
place (hex64 v) = long_directive b'x'

abbrev pub argument : Piece → List Arg
argument (literal c) = []
argument percent_sign = []
argument (character c) = int c ∷ []
argument (string s) = str s ∷ []
argument (signed32 v) = int v ∷ []
argument (unsigned32 v) = int v ∷ []
argument (hex32 v) = int v ∷ []
argument (pointer v) = ptr v ∷ []
argument (signed64 v) = wide v ∷ []
argument (unsigned64 v) = wide v ∷ []
argument (hex64 v) = wide v ∷ []

-- The values that a piece can have: a literal is not '%', a number fits its type.
abbrev pub Fits : Piece → Type 0
Fits (literal c) = c ≢ b'%'
Fits percent_sign = Unit
Fits (character c) = Unit
Fits (string s) = Unit
Fits (signed32 v) = v < 2 ^ 32
Fits (unsigned32 v) = v < 2 ^ 32
Fits (hex32 v) = v < 2 ^ 32
Fits (pointer v) = v < 2 ^ 32
Fits (signed64 v) = v < 2 ^ 64
Fits (unsigned64 v) = v < 2 ^ 64
Fits (hex64 v) = v < 2 ^ 64

-- What a piece shows.
abbrev pub Shows : Piece → Text → Type 0
Shows (literal c) out = out ≡ c ∷ []
Shows percent_sign out = out ≡ b'%' ∷ []
Shows (character c) out = out ≡ u8 c ∷ []
Shows (string s) out = out ≡ text_or_null s
Shows (signed32 v) out = ShowsSigned 32 v out
Shows (unsigned32 v) out = Prints (some out) 10 v decimal
Shows (hex32 v) out = Prints (some out) 16 v hexadecimal
Shows (pointer v) out = ShowsPointer v out
Shows (signed64 v) out = ShowsSigned 64 v out
Shows (unsigned64 v) out = Prints (some out) 10 v decimal
Shows (hex64 v) out = Prints (some out) 16 v hexadecimal

abbrev pub formats : List Piece → List ℕ
formats [] = []
formats (p ∷ ps) = place p ++ formats ps

abbrev pub arguments : List Piece → List Arg
arguments [] = []
arguments (p ∷ ps) = argument p ++ arguments ps

abbrev pub AllFit : List Piece → Type 0
AllFit [] = Unit
AllFit (p ∷ ps) = Fits p × AllFit ps

-- The message is what the pieces show, one behind the other.
abbrev pub ShowsAll : List Piece → Text → Type 0
ShowsAll [] out = out ≡ []
ShowsAll (p ∷ ps) out = (a b : Text) × (out ≡ a ++ b) × Shows p a × ShowsAll ps b

-- A piece at the front of the format is shown, and the rest goes on with the arguments behind it.
abbrev FormatsAs : Piece → (fmt : List ℕ) → (args : List Arg) → Type 0
FormatsAs p fmt args =
    (out : Text) × (format plain (place p ++ fmt) (argument p ++ args)
      ≡ (format plain fmt args >>= λ rest. some (out ++ rest)))
    × Shows p out

-- Each kind of piece, through the branch of `format` that its letter selects.
piece-FormatsAs : (p : Piece) (fmt : List ℕ) (args : List Arg) → Fits p → FormatsAs p fmt args
unfolding format conversion long_conversion
piece-FormatsAs (literal c) fmt args h =
    let e : (c == b'%') ≡ false = ground arith in (c ∷ [], rw e, refl)
piece-FormatsAs percent_sign fmt args h = (b'%' ∷ [], refl, refl)
piece-FormatsAs (character c) fmt args h = (u8 c ∷ [], refl, refl)
piece-FormatsAs (string s) fmt args h = (text_or_null s, refl, refl)
piece-FormatsAs (unsigned32 v) fmt args h =
    let (out, e, good) = printed32 v 10 decimal (omega arith) h in (out, rw e, good)
piece-FormatsAs (hex32 v) fmt args h =
    let (out, e, good) = printed32 v 16 hexadecimal (omega arith) h in (out, rw e, good)
piece-FormatsAs (signed32 v) fmt args h =
    let (out, e, good) = print_signed32-ShowsSigned v h in (out, rw e, good)
piece-FormatsAs (pointer v) fmt args h = let (out, e, good) = printed_ptr v h in (out, rw e, good)
piece-FormatsAs (unsigned64 v) fmt args h =
    let (out, e, good) = printed64 v 10 decimal (omega arith) h refl in (out, rw e, good)
piece-FormatsAs (hex64 v) fmt args h =
    let (out, e, good) = printed64 v 16 hexadecimal (omega arith) h refl in (out, rw e, good)
piece-FormatsAs (signed64 v) fmt args h =
    let (out, e, good) = print_signed64-ShowsSigned v h in (out, rw e, good)

-- The loop over the whole format, piece by piece.
format-ShowsAll :
    (ps : List Piece)
    → AllFit ps
    → (out : Text) × (format plain (formats ps) (arguments ps) ≡ some out) × ShowsAll ps out
unfolding format
format-ShowsAll [] h = ([], refl, refl)
format-ShowsAll (p ∷ ps) h =
    let (front, step, shown) = piece-FormatsAs p (formats ps) (arguments ps) h.0 in
    let (back, done, all) = format-ShowsAll ps h.1 in
    (front ++ back, rw (step, done), (front, back, refl, shown, all))

-- A call of `printf` whose format is made of pieces and whose arguments are those of the pieces, in
-- order and each in the range of its type, is defined and prints what each piece shows, one behind
-- the other.
pub printf-ShowsAll :
    (ps : List Piece)
    → AllFit ps
    → (out : Text) × (printf (formats ps) (arguments ps) ≡ some out) × ShowsAll ps out
unfolding printf
printf-ShowsAll ps h = format-ShowsAll ps h
