-- ===== src/Terminal.antt =====
-- The text console: kernel/arch/i386/tty.cpp and the entry format of kernel/arch/i386/vga.h.
pub mod Entry
pub mod Cursor
pub mod Screen
mod Tests
use loris.Base.{
  ℕ, zero, suc, ◌+◌, ◌*◌, ◌%◌, ◌^◌, bit_or, List, [], ◌∷◌, replicate, Run, ok, ◌>>=◌, load, store,
  ◌==◌, if◌then◌else◌, u8, u16, ◌<<<◌,
}

abbrev pub vga_width : ℕ
vga_width = 80

abbrev pub vga_height : ℕ
vga_height = 25

-- `enum vga_color`, by its value.
pub data VgaColor : Type 0 where
  black blue green cyan red magenta brown light_grey : VgaColor
  dark_grey light_blue light_green light_cyan light_red light_magenta light_brown white : VgaColor

abbrev pub color_code : VgaColor → ℕ
color_code black = 0
color_code blue = 1
color_code green = 2
color_code cyan = 3
color_code red = 4
color_code magenta = 5
color_code brown = 6
color_code light_grey = 7
color_code dark_grey = 8
color_code light_blue = 9
color_code light_green = 10
color_code light_cyan = 11
color_code light_red = 12
color_code light_magenta = 13
color_code light_brown = 14
color_code white = 15

unfoldable pub vga_entry_color : VgaColor → VgaColor → ℕ
vga_entry_color fg bg = u8 (bit_or (color_code fg) (color_code bg <<< 4))

unfoldable pub vga_entry : (uc color : ℕ) → ℕ
vga_entry uc color = u16 (bit_or (u16 uc) (u16 color <<< 8))

-- The static variables of tty.cpp. `buffer` is the memory of the screen, 80 * 25 entries.
pub record Terminal : Type 0 where
  pub row : ℕ
  pub column : ℕ
  pub color : ℕ
  pub buffer : List ℕ

unfoldable pub put_entry_at : (c color x y : ℕ) → Terminal → Run Terminal
put_entry_at c color x y t =
    let index = y * vga_width + x in
    do buffer ← store t.buffer index (vga_entry c color); ok (record t { buffer = buffer })

-- The inner loop of `Initialise` at `x`, and the outer loop at `y`, with the rounds left.
unfoldable pub clear_row : (left x y : ℕ) → Terminal → Run Terminal
clear_row zero x y t = ok t
clear_row (suc left) x y t = do
  buffer ← store t.buffer (y * vga_width + x) (vga_entry b' ' t.color)
  clear_row left (x + 1) y (record t { buffer = buffer })

unfoldable pub clear_rows : (left y : ℕ) → Terminal → Run Terminal
clear_rows zero y t = ok t
clear_rows (suc left) y t = do t' ← clear_row vga_width 0 y t; clear_rows left (y + 1) t'

unfoldable pub initialise : Terminal → Run Terminal
initialise t =
    clear_rows vga_height 0
      (record t { row = 0; column = 0; color = vga_entry_color light_grey black })

unfoldable pub set_color : ℕ → Terminal → Terminal
set_color color t = record t { color = color }

-- The cursor moves on, to the next line at the end of a line and to the top behind the last.
unfoldable pub advance : Terminal → Terminal
advance t =
    if t.column + 1 == vga_width
    then (if t.row + 1 == vga_height
        then record t { column = 0; row = 0 }
        else record t { column = 0; row = t.row + 1 })
    else record t { column = t.column + 1 }

unfoldable pub put_char : (c : ℕ) → Terminal → Run Terminal
put_char c t = do t' ← put_entry_at (u8 c) t.color t.column t.row t; ok (advance t')

-- `Write`, over the bytes of its buffer. `WriteString` is `Write` of the bytes before the zero.
unfoldable pub write : List ℕ → Terminal → Run Terminal
write [] t = ok t
write (c ∷ cs) t = do t' ← put_char c t; write cs t'
