-- ===== src/Console/Tests.antt =====
-- console/: runs of the printers, and the theorems at inputs that meet their conditions.
use wolf_os.Base.{◌^◌, ◌≡◌, refl, List, [], ◌∷◌, none, some, arith}
use wolf_os.Console.Numbers.{Text, print_uint32, print_signed32, rounds32}
use wolf_os.Console.Printf.{int, printf, format, conversion, long_conversion}
use wolf_os.Console.Printf.Pieces.{
  Piece, literal, unsigned32, hex32, formats, arguments, ShowsAll, printf-ShowsAll,
}

least_runs :
    print_signed32 rounds32 (2 ^ 31)
    ≡ some (b'-' ∷ b'2' ∷ b'1' ∷ b'4' ∷ b'7' ∷ b'4' ∷ b'8' ∷ b'3' ∷ b'6' ∷ b'4' ∷ b'8' ∷ [])
unfolding print_signed32 print_uint32
least_runs = refl

-- "%x." of 255
hex_runs : printf (b'%' ∷ b'x' ∷ b'.' ∷ []) (int 255 ∷ []) ≡ some (b'f' ∷ b'f' ∷ b'.' ∷ [])
unfolding printf format conversion long_conversion print_uint32
hex_runs = refl

-- A format that ends in "%l" runs past its end.
long_runs : printf (b'%' ∷ b'l' ∷ []) [] ≡ none
unfolding printf format
long_runs = refl

-- "a%u%x" with two arguments
abbrev message : List Piece
message = literal b'a' ∷ unsigned32 42 ∷ hex32 255 ∷ []

printf-ShowsAll_example :
    (out : Text) × (printf (formats message) (arguments message) ≡ some out) × ShowsAll message out
printf-ShowsAll_example = printf-ShowsAll message (omega arith, (omega arith, (omega arith, tt)))
