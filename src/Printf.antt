-- ===== src/Printf.antt =====
-- libc/stdio/stdio.cpp, in the kernel's build of the library, where `putchar` writes to the console.
pub mod Rendered
pub mod Output
mod Tests
use loris.Base.{
  ℕ, zero, suc, ◌+◌, ◌-◌, ◌%◌, ◌^◌, Bool, true, false, not, ◌||◌, List, [], ◌∷◌, take, drop, length,
  Run, ok, undefined, halt, ◌>>=◌, u8, ltb, ◌==◌, if◌then◌else◌, ℤ, pos, negsuc,
}
use loris.Terminal.{Terminal, write}

abbrev pub int_max : ℕ
int_max = 2 ^ 31 - 1

-- The test `== EOF`, which is -1.
abbrev pub is_eof : ℤ → Bool
is_eof (negsuc zero) = true
is_eof _ = false

-- `ic` is an unsigned char wherever the library calls it.
unfoldable pub putchar : (ic : ℕ) → Terminal → Run (ℤ × Terminal)
putchar ic t = do t' ← write (u8 ic ∷ []) t; ok (pos ic, t')

-- `print`, over the bytes at `data`.
unfoldable pub print : List ℕ → Terminal → Run (Bool × Terminal)
print [] t = ok (true, t)
print (c ∷ cs) t = do
  (r, t') ← putchar (u8 c) t
  let rest = print cs t'
  if is_eof r then ok (false, t') else rest

-- The variable arguments: an `int` by its bit pattern, or a string by the bytes before its zero.
pub data Argument : Type 0 where
  int : ℕ → Argument
  text : List ℕ → Argument

-- `va_arg` of a type that the next argument does not have is undefined.
unfoldable pub next_int : List Argument → Run (ℕ × List Argument)
next_int (int n ∷ args) = ok (n, args)
next_int _ = undefined

unfoldable pub next_text : List Argument → Run (List ℕ × List Argument)
next_text (text s ∷ args) = ok (s, args)
next_text _ = undefined

-- The loop that counts the bytes up to the next `%` or to the end, on the format from `amount` on.
unfoldable pub amount_from : (amount : ℕ) → List ℕ → ℕ
amount_from amount [] = amount
amount_from amount (c ∷ format) =
    let more = amount_from (amount + 1) format in if c == b'%' then amount else more

-- `format[0]`, where the zero behind the format is read at its end.
abbrev pub head : List ℕ → ℕ
head [] = 0
head (c ∷ format) = c

-- What a round of `printf` prints, the format behind it and the arguments left, by the three kinds of
-- directives: literal text, `%c` and `%s`, and any other `%`, which prints the rest of the format.
unfoldable pub directive : List ℕ → List Argument → Run (List ℕ × List ℕ × List Argument)
directive format args =
    if not (head format == b'%') || (head (drop 1 format) == b'%')
    then (let begin = if head format == b'%' then drop 1 format else format in
        let amount = amount_from 1 (drop 1 begin) in
        ok (take amount begin, drop amount begin, args))
    else if head (drop 1 format) == b'c'
    then (do (c, args') ← next_int args; ok (u8 c ∷ [], drop 2 format, args'))
    else if head (drop 1 format) == b's'
    then (do (s, args') ← next_text args; ok (s, drop 2 format, args'))
    else ok (format, [], args)

-- The loop of `printf`. In each directive the test of `maxrem` and the call of `print` are the same.
unfoldable pub printf_from :
    (fuel written : ℕ) → List ℕ → List Argument → Terminal → Run (ℤ × Terminal)
printf_from fuel written [] args t = ok (pos written, t)
printf_from zero written (c ∷ format) args t = halt
printf_from (suc fuel) written (c ∷ format) args t = do
  (out, format', args') ← directive (c ∷ format) args
  if ltb (int_max - written) (length out) then ok (negsuc 0, t) else (do
    (printed, t') ← print out t
    let rest = printf_from fuel (written + length out) format' args' t'
    if printed then rest else ok (negsuc 0, t'))

-- `printf`, on the bytes of the format before its zero.
unfoldable pub printf : (fuel : ℕ) → List ℕ → List Argument → Terminal → Run (ℤ × Terminal)
printf fuel format args t = printf_from fuel 0 format args t

-- The format "%s\n".
unfoldable pub puts : (fuel : ℕ) → List ℕ → Terminal → Run (ℤ × Terminal)
puts fuel string t = printf fuel (b'%' ∷ b's' ∷ 10 ∷ []) (text string ∷ []) t
