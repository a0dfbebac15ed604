-- ===== src/Printf/Tests.antt =====
-- Formats with each of the directives.
use loris.Base.{ℕ, ◌^◌, ◌≡◌, refl, arith, List, [], ◌∷◌, ◌++◌, length-replicate, replicate, ok, pos}
use loris.Terminal.{Terminal, write}
use loris.Terminal.Cursor.{IsTerminal}
use loris.Printf.{Argument, int, text, printf, next_int, next_text}
use loris.Printf.Rendered.{rendered}
use loris.Printf.Output.{printf-write}

abbrev screen : Terminal
screen = record { row = 0; column = 0; color = 7; buffer = replicate 2000 0 }

screen-IsTerminal : IsTerminal screen
screen-IsTerminal = record {
  row_in = omega arith;
  column_in = omega arith;
  size = length-replicate {A = ℕ} 2000 0;
}

-- "a%c%%%s"
abbrev format : List ℕ
format = b'a' ∷ b'%' ∷ b'c' ∷ b'%' ∷ b'%' ∷ b'%' ∷ b's' ∷ []

abbrev arguments : List Argument
arguments = int b'b' ∷ text (b'o' ∷ b'k' ∷ []) ∷ []

rendered_run : rendered format arguments ≡ ok (b'a' ∷ b'b' ∷ b'%' ∷ b'o' ∷ b'k' ∷ [])
unfolding rendered next_int next_text
rendered_run = refl

printf-write_example :
    (t' : Terminal) × (printf 7 format arguments screen ≡ ok (pos 5, t'))
    × (write (b'a' ∷ b'b' ∷ b'%' ∷ b'o' ∷ b'k' ∷ []) screen ≡ ok t')
    × IsTerminal t'
printf-write_example =
    printf-write 7 format arguments screen (b'a' ∷ b'b' ∷ b'%' ∷ b'o' ∷ b'k' ∷ []) screen-IsTerminal
      rendered_run (omega arith) (omega arith)

-- One byte more than an int can count.
bytes : ℕ → List ℕ
bytes n = replicate n b'a'

long_rendered :
    rendered (b'%' ∷ b's' ∷ []) (text (bytes (2 ^ 31)) ∷ []) ≡ ok ((bytes (2 ^ 31)) ++ [])
unfolding rendered next_text
long_rendered = refl
