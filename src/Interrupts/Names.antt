-- ===== src/Interrupts/Names.antt =====
-- interrupts/intnames.h
use wolf_os.Base.{List, [], ◌∷◌}
use wolf_os.Console.Numbers.{Text}

-- The 48 names, by interrupt number.
unfoldable pub intnames : List Text
intnames =
    (b'D' ∷ b'i' ∷ b'v' ∷ b'i' ∷ b'd' ∷ b'e' ∷ b' ' ∷ b'E' ∷ b'r' ∷ b'r' ∷ b'o' ∷ b'r' ∷ [])
    ∷ (b'D' ∷ b'e' ∷ b'b' ∷ b'u' ∷ b'g' ∷ b' ' ∷ b'E' ∷ b'x' ∷ b'c' ∷ b'e' ∷ b'p' ∷ b't' ∷ b'i'
        ∷ b'o' ∷ b'n' ∷ [])
    ∷ (b'N' ∷ b'M' ∷ b'I' ∷ [])
    ∷ (b'B' ∷ b'r' ∷ b'e' ∷ b'a' ∷ b'k' ∷ b'p' ∷ b'o' ∷ b'i' ∷ b'n' ∷ b't' ∷ [])
    ∷ (b'O' ∷ b'v' ∷ b'e' ∷ b'r' ∷ b'f' ∷ b'l' ∷ b'o' ∷ b'w' ∷ [])
    ∷ (b'B' ∷ b'O' ∷ b'U' ∷ b'N' ∷ b'D' ∷ b' ' ∷ b'R' ∷ b'a' ∷ b'n' ∷ b'g' ∷ b'e' ∷ b' ' ∷ b'E'
        ∷ b'x' ∷ b'c' ∷ b'e' ∷ b'e' ∷ b'd' ∷ b'e' ∷ b'd' ∷ [])
    ∷ (b'I' ∷ b'n' ∷ b'v' ∷ b'a' ∷ b'l' ∷ b'i' ∷ b'd' ∷ b' ' ∷ b'O' ∷ b'p' ∷ b'c' ∷ b'o' ∷ b'd'
        ∷ b'e' ∷ [])
    ∷ (b'D' ∷ b'e' ∷ b'v' ∷ b'i' ∷ b'c' ∷ b'e' ∷ b' ' ∷ b'N' ∷ b'o' ∷ b't' ∷ b' ' ∷ b'A' ∷ b'v'
        ∷ b'a' ∷ b'i' ∷ b'l' ∷ b'a' ∷ b'b' ∷ b'l' ∷ b'e' ∷ [])
    ∷ (b'D' ∷ b'o' ∷ b'u' ∷ b'b' ∷ b'l' ∷ b'e' ∷ b' ' ∷ b'F' ∷ b'a' ∷ b'u' ∷ b'l' ∷ b't' ∷ [])
    ∷ (b'C' ∷ b'o' ∷ b'p' ∷ b'r' ∷ b'o' ∷ b'c' ∷ b'e' ∷ b's' ∷ b's' ∷ b'o' ∷ b'r' ∷ b' ' ∷ b'S'
        ∷ b'e' ∷ b'g' ∷ b'm' ∷ b'e' ∷ b'n' ∷ b't' ∷ b' ' ∷ b'O' ∷ b'v' ∷ b'e' ∷ b'r' ∷ b'r' ∷ b'u'
        ∷ b'n' ∷ [])
    ∷ (b'I' ∷ b'n' ∷ b'v' ∷ b'a' ∷ b'l' ∷ b'i' ∷ b'd' ∷ b' ' ∷ b'T' ∷ b'S' ∷ b'S' ∷ [])
    ∷ (b'S' ∷ b'e' ∷ b'g' ∷ b'm' ∷ b'e' ∷ b'n' ∷ b't' ∷ b' ' ∷ b'N' ∷ b'o' ∷ b't' ∷ b' ' ∷ b'P'
        ∷ b'r' ∷ b'e' ∷ b's' ∷ b'e' ∷ b'n' ∷ b't' ∷ [])
    ∷ (b'S' ∷ b't' ∷ b'a' ∷ b'c' ∷ b'k' ∷ b'-' ∷ b'S' ∷ b'e' ∷ b'g' ∷ b'm' ∷ b'e' ∷ b'n' ∷ b't'
        ∷ b' ' ∷ b'F' ∷ b'a' ∷ b'u' ∷ b'l' ∷ b't' ∷ [])
    ∷ (b'G' ∷ b'e' ∷ b'n' ∷ b'e' ∷ b'r' ∷ b'a' ∷ b'l' ∷ b' ' ∷ b'P' ∷ b'r' ∷ b'o' ∷ b't' ∷ b'e'
        ∷ b'c' ∷ b't' ∷ b'i' ∷ b'o' ∷ b'n' ∷ b' ' ∷ b'F' ∷ b'a' ∷ b'u' ∷ b'l' ∷ b't' ∷ [])
    ∷ (b'P' ∷ b'a' ∷ b'g' ∷ b'e' ∷ b' ' ∷ b'F' ∷ b'a' ∷ b'u' ∷ b'l' ∷ b't' ∷ [])
    ∷ (b'R' ∷ b'e' ∷ b's' ∷ b'e' ∷ b'r' ∷ b'v' ∷ b'e' ∷ b'd' ∷ [])
    ∷ (b'x' ∷ b'8' ∷ b'7' ∷ b' ' ∷ b'F' ∷ b'P' ∷ b'U' ∷ b' ' ∷ b'F' ∷ b'l' ∷ b'o' ∷ b'a' ∷ b't'
        ∷ b'i' ∷ b'n' ∷ b'g' ∷ b'-' ∷ b'P' ∷ b'o' ∷ b'i' ∷ b'n' ∷ b't' ∷ b' ' ∷ b'E' ∷ b'r' ∷ b'r'
        ∷ b'o' ∷ b'r' ∷ [])
    ∷ (b'A' ∷ b'l' ∷ b'i' ∷ b'g' ∷ b'n' ∷ b'm' ∷ b'e' ∷ b'n' ∷ b't' ∷ b' ' ∷ b'C' ∷ b'h' ∷ b'e'
        ∷ b'c' ∷ b'k' ∷ [])
    ∷ (b'M' ∷ b'a' ∷ b'c' ∷ b'h' ∷ b'i' ∷ b'n' ∷ b'e' ∷ b' ' ∷ b'C' ∷ b'h' ∷ b'e' ∷ b'c' ∷ b'k'
        ∷ [])
    ∷ (b'S' ∷ b'I' ∷ b'M' ∷ b'D' ∷ b' ' ∷ b'F' ∷ b'l' ∷ b'o' ∷ b'a' ∷ b't' ∷ b'i' ∷ b'n' ∷ b'g'
        ∷ b'-' ∷ b'P' ∷ b'o' ∷ b'i' ∷ b'n' ∷ b't' ∷ b' ' ∷ b'E' ∷ b'x' ∷ b'c' ∷ b'e' ∷ b'p' ∷ b't'
        ∷ b'i' ∷ b'o' ∷ b'n' ∷ [])
    ∷ (b'V' ∷ b'i' ∷ b'r' ∷ b't' ∷ b'u' ∷ b'a' ∷ b'l' ∷ b'i' ∷ b'z' ∷ b'a' ∷ b't' ∷ b'i' ∷ b'o'
        ∷ b'n' ∷ b' ' ∷ b'E' ∷ b'x' ∷ b'c' ∷ b'e' ∷ b'p' ∷ b't' ∷ b'i' ∷ b'o' ∷ b'n' ∷ [])
    ∷ (b'R' ∷ b'e' ∷ b's' ∷ b'e' ∷ b'r' ∷ b'v' ∷ b'e' ∷ b'd' ∷ [])
    ∷ (b'R' ∷ b'e' ∷ b's' ∷ b'e' ∷ b'r' ∷ b'v' ∷ b'e' ∷ b'd' ∷ [])
    ∷ (b'R' ∷ b'e' ∷ b's' ∷ b'e' ∷ b'r' ∷ b'v' ∷ b'e' ∷ b'd' ∷ [])
    ∷ (b'R' ∷ b'e' ∷ b's' ∷ b'e' ∷ b'r' ∷ b'v' ∷ b'e' ∷ b'd' ∷ [])
    ∷ (b'R' ∷ b'e' ∷ b's' ∷ b'e' ∷ b'r' ∷ b'v' ∷ b'e' ∷ b'd' ∷ [])
    ∷ (b'R' ∷ b'e' ∷ b's' ∷ b'e' ∷ b'r' ∷ b'v' ∷ b'e' ∷ b'd' ∷ [])
    ∷ (b'R' ∷ b'e' ∷ b's' ∷ b'e' ∷ b'r' ∷ b'v' ∷ b'e' ∷ b'd' ∷ [])
    ∷ (b'R' ∷ b'e' ∷ b's' ∷ b'e' ∷ b'r' ∷ b'v' ∷ b'e' ∷ b'd' ∷ [])
    ∷ (b'R' ∷ b'e' ∷ b's' ∷ b'e' ∷ b'r' ∷ b'v' ∷ b'e' ∷ b'd' ∷ [])
    ∷ (b'S' ∷ b'e' ∷ b'c' ∷ b'u' ∷ b'r' ∷ b'i' ∷ b't' ∷ b'y' ∷ b' ' ∷ b'E' ∷ b'x' ∷ b'c' ∷ b'e'
        ∷ b'p' ∷ b't' ∷ b'i' ∷ b'o' ∷ b'n' ∷ [])
    ∷ (b'R' ∷ b'e' ∷ b's' ∷ b'e' ∷ b'r' ∷ b'v' ∷ b'e' ∷ b'd' ∷ [])
    ∷ (b'I' ∷ b'R' ∷ b'Q' ∷ b'0' ∷ b':' ∷ b' ' ∷ b'T' ∷ b'i' ∷ b'm' ∷ b'e' ∷ b'r' ∷ [])
    ∷ (b'I' ∷ b'R' ∷ b'Q' ∷ b'1' ∷ b':' ∷ b' ' ∷ b'K' ∷ b'e' ∷ b'y' ∷ b'b' ∷ b'o' ∷ b'a' ∷ b'r'
        ∷ b'd' ∷ [])
    ∷ (b'I' ∷ b'R' ∷ b'Q' ∷ b'2' ∷ b':' ∷ b' ' ∷ b'C' ∷ b'a' ∷ b's' ∷ b'c' ∷ b'a' ∷ b'd' ∷ b'e'
        ∷ [])
    ∷ (b'I' ∷ b'R' ∷ b'Q' ∷ b'3' ∷ b':' ∷ b' ' ∷ b'C' ∷ b'O' ∷ b'M' ∷ b'2' ∷ b'/' ∷ b'4' ∷ [])
    ∷ (b'I' ∷ b'R' ∷ b'Q' ∷ b'4' ∷ b':' ∷ b' ' ∷ b'C' ∷ b'O' ∷ b'M' ∷ b'1' ∷ b'/' ∷ b'3' ∷ [])
    ∷ (b'I' ∷ b'R' ∷ b'Q' ∷ b'5' ∷ b':' ∷ b' ' ∷ b'L' ∷ b'P' ∷ b'T' ∷ b'2' ∷ b' ' ∷ b'/' ∷ b' '
        ∷ b'S' ∷ b'o' ∷ b'u' ∷ b'n' ∷ b'd' ∷ b' ' ∷ b'C' ∷ b'a' ∷ b'r' ∷ b'd' ∷ [])
    ∷ (b'I' ∷ b'R' ∷ b'Q' ∷ b'6' ∷ b':' ∷ b' ' ∷ b'F' ∷ b'l' ∷ b'o' ∷ b'p' ∷ b'p' ∷ b'y' ∷ b' '
        ∷ b'D' ∷ b'i' ∷ b's' ∷ b'k' ∷ [])
    ∷ (b'I' ∷ b'R' ∷ b'Q' ∷ b'7' ∷ b':' ∷ b' ' ∷ b'L' ∷ b'P' ∷ b'T' ∷ b'1' ∷ b' ' ∷ b'/' ∷ b' '
        ∷ b'P' ∷ b'a' ∷ b'r' ∷ b'a' ∷ b'l' ∷ b'l' ∷ b'e' ∷ b'l' ∷ b' ' ∷ b'P' ∷ b'o' ∷ b'r' ∷ b't'
        ∷ [])
    ∷ (b'I' ∷ b'R' ∷ b'Q' ∷ b'8' ∷ b':' ∷ b' ' ∷ b'R' ∷ b'T' ∷ b'C' ∷ [])
    ∷ (b'I' ∷ b'R' ∷ b'Q' ∷ b'9' ∷ b':' ∷ b' ' ∷ b'A' ∷ b'C' ∷ b'P' ∷ b'I' ∷ b' ' ∷ b'/' ∷ b' '
        ∷ b'I' ∷ b'R' ∷ b'Q' ∷ b'2' ∷ [])
    ∷ (b'I' ∷ b'R' ∷ b'Q' ∷ b'1' ∷ b'0' ∷ b':' ∷ b' ' ∷ b'S' ∷ b'C' ∷ b'S' ∷ b'I' ∷ b' ' ∷ b'/'
        ∷ b' ' ∷ b'N' ∷ b'I' ∷ b'C' ∷ [])
    ∷ (b'I' ∷ b'R' ∷ b'Q' ∷ b'1' ∷ b'1' ∷ b':' ∷ b' ' ∷ b'S' ∷ b'C' ∷ b'S' ∷ b'I' ∷ b' ' ∷ b'/'
        ∷ b' ' ∷ b'N' ∷ b'I' ∷ b'C' ∷ [])
    ∷ (b'I' ∷ b'R' ∷ b'Q' ∷ b'1' ∷ b'2' ∷ b':' ∷ b' ' ∷ b'P' ∷ b'S' ∷ b'/' ∷ b'2' ∷ b' ' ∷ b'M'
        ∷ b'o' ∷ b'u' ∷ b's' ∷ b'e' ∷ [])
    ∷ (b'I' ∷ b'R' ∷ b'Q' ∷ b'1' ∷ b'3' ∷ b':' ∷ b' ' ∷ b'F' ∷ b'P' ∷ b'U' ∷ [])
    ∷ (b'I' ∷ b'R' ∷ b'Q' ∷ b'1' ∷ b'4' ∷ b':' ∷ b' ' ∷ b'P' ∷ b'r' ∷ b'i' ∷ b'm' ∷ b'a' ∷ b'r'
        ∷ b'y' ∷ b' ' ∷ b'A' ∷ b'T' ∷ b'A' ∷ [])
    ∷ (b'I' ∷ b'R' ∷ b'Q' ∷ b'1' ∷ b'5' ∷ b':' ∷ b' ' ∷ b'S' ∷ b'e' ∷ b'c' ∷ b'o' ∷ b'n' ∷ b'd'
        ∷ b'a' ∷ b'r' ∷ b'y' ∷ b' ' ∷ b'A' ∷ b'T' ∷ b'A' ∷ [])
    ∷ []
