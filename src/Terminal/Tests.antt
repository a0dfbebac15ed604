-- ===== src/Terminal/Tests.antt =====
-- A terminal with an empty screen.
use loris.Base.{ℕ, ◌≡◌, arith, ◌∷◌, [], ok, length-replicate, replicate}
use loris.Terminal.{Terminal, write}
use loris.Terminal.Cursor.{IsTerminal}
use loris.Terminal.Screen.{Written, write-Written}

abbrev screen : Terminal
screen = record { row = 24; column = 79; color = 7; buffer = replicate 2000 0 }

screen-IsTerminal : IsTerminal screen
screen-IsTerminal = record {
  row_in = omega arith;
  column_in = omega arith;
  size = length-replicate {A = ℕ} 2000 0;
}

write-Written_example :
    (t' : Terminal) × (write (b'o' ∷ b'k' ∷ []) screen ≡ ok t')
    × Written screen (b'o' ∷ b'k' ∷ []) t'
write-Written_example = write-Written (b'o' ∷ b'k' ∷ []) screen screen-IsTerminal (omega arith)
