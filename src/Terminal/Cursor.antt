-- ===== src/Terminal/Cursor.antt =====
-- The cursor as one position on the screen, read line by line.
use loris.Base.{
  ℕ, ◌+◌, ◌*◌, ◌%◌, ◌<◌, ◌≡◌, ap, ◌∙◌, arith, length, length-set, set, ok, ◌>>=◌, store_ok, u8,
}
use loris.Terminal.{Terminal, vga_entry, put_entry_at, advance, put_char}

-- The cursor is on the screen, and the buffer is the screen.
pub record IsTerminal (t : Terminal) : Type 0 where
  pub row_in : t.row < 25
  pub column_in : t.column < 80
  pub size : length t.buffer ≡ 2000

abbrev pub position : Terminal → ℕ
position t = t.row * 80 + t.column

pub advance-position :
    (t : Terminal) → IsTerminal t → position (advance t) ≡ (position t + 1) % 2000
unfolding advance
advance-position t v = ground arith

pub advance-IsTerminal : (t : Terminal) → IsTerminal t → IsTerminal (advance t)
unfolding advance
advance-IsTerminal t v = ground arith

pub advance-keeps : (t : Terminal) → ((advance t).buffer ≡ t.buffer) × ((advance t).color ≡ t.color)
unfolding advance
advance-keeps t = ground arith

-- What `PutChar` leaves behind.
abbrev pub after_char : ℕ → Terminal → Terminal
after_char c t =
    advance (record t { buffer = set t.buffer (position t) (vga_entry (u8 c) t.color) })

-- On a terminal in order `PutChar` returns: it writes the character's entry under the cursor and
-- moves the cursor on by one position, from the last back to the first, and the terminal is in
-- order again.
pub put_char_lem :
    (c : ℕ) (t : Terminal)
    → IsTerminal t
    → (t' : Terminal) × (put_char c t ≡ ok t')
      × IsTerminal t'
      × (position t' ≡ (position t + 1) % 2000)
      × (t'.buffer ≡ set t.buffer (position t) (vga_entry (u8 c) t.color))
      × (t'.color ≡ t.color)
unfolding put_char put_entry_at
put_char_lem c t v =
    let buffer = set t.buffer (position t) (vga_entry (u8 c) t.color) in
    let t₁ = record t { buffer = buffer } in
    let v₁ : IsTerminal t₁ = record {
      row_in = v.row_in;
      column_in = v.column_in;
      size = length-set t.buffer (position t) (vga_entry (u8 c) t.color) ∙ v.size;
    } in
    let stored =
      store_ok t.buffer (position t) (vga_entry (u8 c) t.color)
        (omega (arith, v.row_in, v.column_in, v.size)) in
    (
      advance t₁,
      ap (λ m. (m >>= λ b. ok (record t { buffer = b })) >>= λ r. ok (advance r)) stored,
      advance-IsTerminal t₁ v₁,
      advance-position t₁ v₁,
      (advance-keeps t₁).0,
      (advance-keeps t₁).1,
    )
