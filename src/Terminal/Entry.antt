-- ===== src/Terminal/Entry.antt =====
-- An entry of the screen's memory: its character and its two colours can be read back.
use loris.Base.{
  ℕ, ◌+◌, ◌*◌, ◌/◌, ◌%◌, ◌<◌, ◌≡◌, arith, bit_or, bit_or_fields, bit_or_comm, u16, ◌<<<◌,
}
use loris.Terminal.{VgaColor, black, color_code, vga_entry_color, vga_entry}

color_code-lt : (c : VgaColor) → color_code c < 16
color_code-lt black = omega arith
color_code-lt _ = omega arith

-- The colour byte holds the foreground in its low nibble and the background in its high one.
pub vga_entry_color_fields :
    (fg bg : VgaColor)
    → (vga_entry_color fg bg % 16 ≡ color_code fg) × (vga_entry_color fg bg / 16 ≡ color_code bg)
unfolding vga_entry_color
vga_entry_color_fields fg bg = omega (
  arith,
  color_code-lt fg,
  color_code-lt bg,
  bit_or_comm (color_code fg) (color_code bg <<< 4),
  bit_or_fields 4 (color_code bg) (color_code fg) (color_code-lt fg),
)

-- The entry of two bytes holds the character in its low byte and the colour in its high one.
pub vga_entry_fields :
    (uc color : ℕ)
    → uc < 256
    → color < 256
    → (vga_entry uc color % 256 ≡ uc) × (vga_entry uc color / 256 ≡ color)
unfolding vga_entry
vga_entry_fields uc color hc hk =
    let e : u16 uc ≡ uc = omega arith in
    let e' : u16 color ≡ color = omega arith in
    let o : bit_or (u16 uc) (u16 color <<< 8) ≡ color * 256 + uc =
      rw (e, e', bit_or_comm uc (color <<< 8)) (bit_or_fields 8 color uc hc) in
    omega (arith, o)
