-- ===== src/Console/Printf.antt =====
-- console/console.c, `printf` and `print`. The output is the list of characters for `putchar`.
pub mod Pieces
use wolf_os.Base.{◌>>=◌, ℕ, ◌+◌, ◌^◌, List, [], ◌∷◌, ◌++◌, Option, none, some, ◌==◌, if◌then◌else◌}
use wolf_os.Base.Words.{u8}
use wolf_os.Console.Numbers.{
  Text, print_uint32, print_uint64, print_signed32, print_signed64, print_ptr, decimal, hexadecimal,
  rounds32, rounds64,
}

-- What a call passes behind the format: an `int` or `unsigned`, a 64-bit integer, a string (`none`
-- is a null pointer), or another pointer.
pub data Arg : Type 0 where
  int : ℕ → Arg
  wide : ℕ → Arg
  str : Option Text → Arg
  ptr : ℕ → Arg

-- The next argument by the type that `va_arg` asks for; `none` where C leaves the read undefined.
abbrev pub next_int : List Arg → Option (ℕ × List Arg)
next_int (int n ∷ args) = some (n, args)
next_int _ = none

abbrev pub next_wide : List Arg → Option (ℕ × List Arg)
next_wide (wide n ∷ args) = some (n, args)
next_wide _ = none

abbrev pub next_str : List Arg → Option (Option Text × List Arg)
next_str (str s ∷ args) = some (s, args)
next_str _ = none

abbrev pub next_ptr : List Arg → Option (ℕ × List Arg)
next_ptr (ptr p ∷ args) = some (p, args)
next_ptr _ = none

-- "(null)"
abbrev pub null_text : Text
null_text = b'(' ∷ b'n' ∷ b'u' ∷ b'l' ∷ b'l' ∷ b')' ∷ []

abbrev pub text_or_null : Option Text → Text
text_or_null none = null_text
text_or_null (some s) = s

abbrev pub Step : Type 0
Step = Option (Text × List Arg)

-- What a number printer writes, with the arguments that are left.
abbrev pub with_rest : List Arg → Option Text → Step
with_rest args none = none
with_rest args (some out) = some (out, args)

-- The letter behind '%', other than 'l'.
unfoldable pub conversion : (c : ℕ) → List Arg → Step
conversion c args =
    if c == b'c'
    then (do (n, rest) ← next_int args; some (u8 n ∷ [], rest))
    else if c == b's'
    then (do (s, rest) ← next_str args; some (text_or_null s, rest))
    else if c == b'd'
    then (do (n, rest) ← next_int args; with_rest rest (print_signed32 rounds32 n))
    else if c == b'u'
    then (do (n, rest) ← next_int args; with_rest rest (print_uint32 rounds32 n 10 decimal))
    else if c == b'x'
    then (do (n, rest) ← next_int args; with_rest rest (print_uint32 rounds32 n 16 hexadecimal))
    else if c == b'p'
    then (do (p, rest) ← next_ptr args; with_rest rest (print_ptr rounds32 p))
    else if c == b'%'
    then some (b'%' ∷ [], args)
    else some (b'%' ∷ c ∷ [], args)

-- The letter behind "%l".
unfoldable pub long_conversion : (c : ℕ) → List Arg → Step
long_conversion c args =
    if c == b'd'
    then (do (n, rest) ← next_wide args; with_rest rest (print_signed64 rounds64 n))
    else if c == b'u'
    then (do (n, rest) ← next_wide args; with_rest rest (print_uint64 rounds64 n 10 decimal))
    else if c == b'x'
    then (do (n, rest) ← next_wide args; with_rest rest (print_uint64 rounds64 n 16 hexadecimal))
    else some (b'%' ∷ b'l' ∷ c ∷ [], args)

-- The loop over the format, by where it stands: at a character, behind '%', or behind "%l". A format
-- that ends behind "%l" makes the loop step over the terminator, and is `none`.
pub data Mode : Type 0 where
  plain percent long : Mode

unfoldable pub format : Mode → List ℕ → List Arg → Option Text
format plain [] args = some []
format percent [] args = some []
format long [] args = none
format plain (c ∷ fmt) args =
    let literal = format plain fmt args in
    let directive = format percent fmt args in
    if c == b'%' then directive else (do rest ← literal; some (c ∷ rest))
format percent (c ∷ fmt) args =
    let longer = format long fmt args in
    let shown : Option Text = (do
      (out, args') ← conversion c args
      rest ← format plain fmt args'
      some (out ++ rest)) in
    if c == b'l' then longer else shown
format long (c ∷ fmt) args = do
  (out, args') ← long_conversion c args
  rest ← format plain fmt args'
  some (out ++ rest)

-- The characters of `fmt` before its terminator.
unfoldable pub printf : List ℕ → List Arg → Option Text
printf fmt args = format plain fmt args

-- `print(str)` hands every character over.
pub print : Text → Text
print [] = []
print (c ∷ cs) = c ∷ print cs
