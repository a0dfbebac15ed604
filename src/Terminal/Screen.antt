-- ===== src/Terminal/Screen.antt =====
-- What is on the screen after `Write` and after `Initialise`.
use native.Mathlib.Decide.{dec_lt}
use mathlib.Core.Path.{subst}
use loris.Base.{
  ℕ, zero, suc, ◌+◌, ◌-◌, ◌*◌, ◌%◌, ◌≤◌, ◌<◌, ◌≡◌, refl, sym, ap, ◌∙◌, ◌≢◌, arith, List, [], ◌∷◌,
  length, length-set, get_or, set, get_or-set_self, get_or-set_ne, ok, ◌>>=◌, store_ok, u8,
}
use loris.Terminal.{
  Terminal, vga_entry, vga_entry_color, light_grey, black, write, clear_row, clear_rows, initialise,
}
use loris.Terminal.Cursor.{IsTerminal, position, put_char_lem}

-- `t'` is `t` after the characters `cs`: they stand one behind the other from the cursor on, round
-- the end of the screen, every other cell is as before, and the cursor is behind them.
pub record Written (t : Terminal) (cs : List ℕ) (t' : Terminal) : Type 0 where
  pub in_order : IsTerminal t'
  pub same_color : t'.color ≡ t.color
  pub cursor : position t' ≡ (position t + length cs) % 2000
  pub shown :
      (i : ℕ)
      → i < length cs
      → get_or t'.buffer ((position t + i) % 2000) 0 ≡ vga_entry (u8 (get_or cs i 0)) t.color
  pub kept :
      (k : ℕ)
      → k < 2000
      → length cs ≤ (k + 2000 - position t) % 2000
      → get_or t'.buffer k 0 ≡ get_or t.buffer k 0

module _ (c : ℕ) (cs : List ℕ) (t t₁ t' : Terminal) (v : IsTerminal t)
    (room : suc (length cs) ≤ 2000) (moved : position t₁ ≡ (position t + 1) % 2000)
    (put : t₁.buffer ≡ set t.buffer (position t) (vga_entry (u8 c) t.color))
    (color : t₁.color ≡ t.color) (rest : Written t₁ cs t') where
  on_screen : position t < length t.buffer
  on_screen = omega (arith, v.row_in, v.column_in, v.size)

  here : get_or t₁.buffer (position t) 0 ≡ vga_entry (u8 c) t.color
  here = rw put (get_or-set_self t.buffer (position t) (vga_entry (u8 c) t.color) 0 on_screen)

  elsewhere : (k : ℕ) → position t ≢ k → get_or t₁.buffer k 0 ≡ get_or t.buffer k 0
  elsewhere k ne = rw put (get_or-set_ne t.buffer (position t) k (vga_entry (u8 c) t.color) 0 ne)

  Written_shown :
      (i : ℕ)
      → i < suc (length cs)
      → get_or t'.buffer ((position t + i) % 2000) 0 ≡ vga_entry (u8 (get_or (c ∷ cs) i 0)) t.color
  Written_shown zero h =
      let e : (position t + 0) % 2000 ≡ position t = omega (arith, on_screen, v.size) in
      rw e (
        rest.kept (position t) (omega (arith, on_screen, v.size))
          (omega (arith, on_screen, v.size, moved))
        ∙ here)
  Written_shown (suc i) h =
      let e : (position t + suc i) % 2000 ≡ (position t₁ + i) % 2000 = omega (arith, moved) in
      subst (λ (k : ℕ). get_or t'.buffer k 0 ≡ vga_entry (u8 (get_or cs i 0)) t.color) (sym e)
        (rest.shown i (omega arith) ∙ ap (vga_entry (u8 (get_or cs i 0))) color)

  Written-cons : Written t (c ∷ cs) t'
  Written-cons = record {
    in_order = rest.in_order;
    same_color = rest.same_color ∙ color;
    cursor = omega (arith, rest.cursor, moved);
    shown = Written_shown;
    kept = λ k h far.
        rest.kept k h (omega (arith, on_screen, v.size, moved))
        ∙ elsewhere k (omega (arith, on_screen, v.size));
  }

-- `Write` of at most a screenful, on a terminal in order, returns: its characters stand one behind
-- the other from the cursor on, round the end of the screen, all other cells are as before, and
-- the cursor is behind them.
pub write-Written :
    (cs : List ℕ) (t : Terminal)
    → IsTerminal t
    → length cs ≤ 2000
    → (t' : Terminal) × (write cs t ≡ ok t') × Written t cs t'
unfolding write
write-Written [] t v room = (
  t,
  refl,
  record {
    in_order = v;
    same_color = refl;
    cursor = omega (arith, v.row_in, v.column_in);
    shown = λ i h. elim h [ ];
    kept = λ k h far. refl;
  },
)
write-Written (c ∷ cs) t v room =
    let (t₁, run, v₁, moved, put, color) = put_char_lem c t v in
    let (t', run', rest) = write-Written cs t₁ v₁ (omega arith) in
    (t', ap (λ m. m >>= write cs) run ∙ run', Written-cons c cs t t₁ t' v room moved put color rest)

-- The cells `lo` to `hi` are blank in `t'`, and all else is as in `t`.
record Cleared (lo hi : ℕ) (t t' : Terminal) : Type 0 where
  same_row : t'.row ≡ t.row
  same_column : t'.column ≡ t.column
  same_color : t'.color ≡ t.color
  same_size : length t'.buffer ≡ length t.buffer
  blank : (k : ℕ) → lo ≤ k → k < hi → get_or t'.buffer k 0 ≡ vga_entry b' ' t.color
  kept : (k : ℕ) → k < lo → get_or t'.buffer k 0 ≡ get_or t.buffer k 0

Cleared-join :
    (lo mid hi : ℕ) (t t₁ t' : Terminal)
    → mid ≤ hi
    → Cleared lo mid t t₁
    → Cleared mid hi t₁ t'
    → lo ≤ mid
    → Cleared lo hi t t'
Cleared-join lo mid hi t t₁ t' h c d h' = record {
  same_row = d.same_row ∙ c.same_row;
  same_column = d.same_column ∙ c.same_column;
  same_color = d.same_color ∙ c.same_color;
  same_size = d.same_size ∙ c.same_size;
  blank = λ k p q. elim (dec_lt k mid) [
    | yes l ↦ d.kept k l ∙ c.blank k p l
    | no l ↦ d.blank k (omega arith) q ∙ ap (vga_entry b' ') c.same_color
  ];
  kept = λ k p. d.kept k (omega arith) ∙ c.kept k p;
}

Cleared-cell :
    (k : ℕ) (t : Terminal)
    → k < length t.buffer
    → Cleared k (k + 1) t (record t { buffer = set t.buffer k (vga_entry b' ' t.color) })
Cleared-cell k t h = record {
  same_row = refl;
  same_column = refl;
  same_color = refl;
  same_size = length-set t.buffer k (vga_entry b' ' t.color);
  blank = λ j p q.
      subst
        (λ (i : ℕ). get_or (set t.buffer k (vga_entry b' ' t.color)) i 0 ≡ vga_entry b' ' t.color)
        (omega arith) (get_or-set_self t.buffer k (vga_entry b' ' t.color) 0 h);
  kept = λ j p. get_or-set_ne t.buffer k j (vga_entry b' ' t.color) 0 (omega arith);
}

clear_row-Cleared :
    (left x y : ℕ) (t : Terminal)
    → y * 80 + x + left ≤ length t.buffer
    → (t' : Terminal) × (clear_row left x y t ≡ ok t')
      × Cleared (y * 80 + x) (y * 80 + x + left) t t'
unfolding clear_row
clear_row-Cleared zero x y t h = (
  t,
  refl,
  record {
    same_row = refl;
    same_column = refl;
    same_color = refl;
    same_size = refl;
    blank = λ k p q. absurd (omega arith);
    kept = λ k p. refl;
  },
)
clear_row-Cleared (suc left) x y t h =
    let t₁ = record t { buffer = set t.buffer (y * 80 + x) (vga_entry b' ' t.color) } in
    let c = Cleared-cell (y * 80 + x) t (omega arith) in
    let (t', run, d) = clear_row-Cleared left (x + 1) y t₁ (omega (arith, c.same_size)) in
    let e : y * 80 + (x + 1) ≡ y * 80 + x + 1 = omega arith in
    let e' : y * 80 + (x + 1) + left ≡ y * 80 + x + suc left = omega arith in
    let d' : Cleared (y * 80 + x + 1) (y * 80 + x + suc left) t₁ t' =
      subst (λ (i : ℕ). Cleared i (y * 80 + x + suc left) t₁ t') e
        (subst (λ (i : ℕ). Cleared (y * 80 + (x + 1)) i t₁ t') e' d) in
    (
      t',
      ap (λ m. m >>= λ b. clear_row left (x + 1) y (record t { buffer = b }))
            (store_ok t.buffer (y * 80 + x) (vga_entry b' ' t.color) (omega arith))
          ∙ run,
      Cleared-join (y * 80 + x) (y * 80 + x + 1) (y * 80 + x + suc left) t t₁ t' (omega arith) c d'
          (omega arith),
    )

clear_rows-Cleared :
    (left y : ℕ) (t : Terminal)
    → (y + left) * 80 ≤ length t.buffer
    → (t' : Terminal) × (clear_rows left y t ≡ ok t') × Cleared (y * 80) ((y + left) * 80) t t'
unfolding clear_rows
clear_rows-Cleared zero y t h = (
  t,
  refl,
  record {
    same_row = refl;
    same_column = refl;
    same_color = refl;
    same_size = refl;
    blank = λ k p q. absurd (omega arith);
    kept = λ k p. refl;
  },
)
clear_rows-Cleared (suc left) y t h =
    let (t₁, run, c) = clear_row-Cleared 80 0 y t (omega arith) in
    let (t', run', d) = clear_rows-Cleared left (y + 1) t₁ (omega (arith, c.same_size)) in
    let start : y * 80 + 0 ≡ y * 80 = omega arith in
    let mid : y * 80 + 0 + 80 ≡ (y + 1) * 80 = omega arith in
    let end : (y + 1 + left) * 80 ≡ (y + suc left) * 80 = omega arith in
    (
      t',
      ap (λ m. m >>= clear_rows left (y + 1)) run ∙ run',
      Cleared-join (y * 80) ((y + 1) * 80) ((y + suc left) * 80) t t₁ t' (omega arith)
          (subst (λ (i : ℕ). Cleared i ((y + 1) * 80) t t₁) start
            (subst (λ (i : ℕ). Cleared (y * 80 + 0) i t t₁) mid c))
          (subst (λ (i : ℕ). Cleared ((y + 1) * 80) i t₁ t') end d) (omega arith),
    )

-- `Initialise`, whatever the variables held, returns a terminal in order with the cursor at the
-- top left, light grey on black, and every cell of the screen blank in these colours.
pub initialise_lem :
    (t : Terminal)
    → length t.buffer ≡ 2000
    → (t' : Terminal) × (initialise t ≡ ok t')
      × IsTerminal t'
      × (position t' ≡ 0)
      × (t'.color ≡ vga_entry_color light_grey black)
      × ((k : ℕ)
          → k < 2000
          → get_or t'.buffer k 0 ≡ vga_entry b' ' (vga_entry_color light_grey black))
unfolding initialise
initialise_lem t size =
    let t₁ = record t { row = 0; column = 0; color = vga_entry_color light_grey black } in
    let (t', run, c) = clear_rows-Cleared 25 0 t₁ (omega arith) in
    (
      t',
      run,
      record {
        row_in = omega (arith, c.same_row);
        column_in = omega (arith, c.same_column);
        size = c.same_size ∙ size;
      },
      omega (arith, c.same_row, c.same_column),
      c.same_color,
      λ k h. c.blank k (omega arith) h,
    )
