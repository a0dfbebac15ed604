-- ===== src/Printf/Output.antt =====
-- What `printf` does to the console, and what it returns.
use mathlib.Core.Path.{subst}
use loris.Base.{
  ℕ, zero, suc, ◌+◌, ◌-◌, ◌≤◌, ◌<◌, ◌≡◌, refl, sym, ap, ◌∙◌, arith, true, false, Bool, List, [],
  ◌∷◌, ◌++◌, length, length-append, Run, ok, undefined, halt, ◌>>=◌, u8, ltb, if◌then◌else◌, ℤ, pos,
  negsuc, Bool-cases, inl, inr,
}
use loris.Terminal.{Terminal, put_char, write}
use loris.Terminal.Cursor.{IsTerminal, put_char_lem}
use loris.Printf.{Argument, int_max, is_eof, putchar, print, printf_from, printf}
use loris.Printf.Rendered.{rendered, Printed, directive-Printed}

put_char-byte : (c : ℕ) (t : Terminal) → put_char (u8 (u8 c)) t ≡ put_char c t
unfolding put_char
put_char-byte c t = let e : u8 (u8 (u8 c)) ≡ u8 c = omega arith in rw e

-- `print` shows its bytes as `Write` does, and never fails.
print-write : (cs : List ℕ) (t : Terminal) → print cs t ≡ (write cs t >>= λ t'. ok (true, t'))
unfolding print putchar write
print-write [] t = refl
print-write (c ∷ cs) t = rw (put_char-byte c t) (go (put_char c t) (print-write cs))
  where
    go :
        (m : Run Terminal)
        → ((t' : Terminal) → print cs t' ≡ (write cs t' >>= λ t''. ok (true, t'')))
        → ◌>>=◌ {B = Bool × Terminal}
            (◌>>=◌ {B = ℤ × Terminal} (m >>= λ t'. ok t') (λ t'. ok (pos (u8 c), t')))
            (λ x. if is_eof x.0 then ok (false, x.1) else print cs x.1)
          ≡ ((m >>= λ t'. write cs t') >>= λ t'. ok (true, t'))
    go (ok t') ih = ih t'
    go undefined ih = refl
    go halt ih = refl

write-append :
    (cs ds : List ℕ) (t : Terminal) → write (cs ++ ds) t ≡ (write cs t >>= λ t'. write ds t')
unfolding write
write-append [] ds t = refl
write-append (c ∷ cs) ds t = go (put_char c t) (write-append cs ds)
  where
    go :
        (m : Run Terminal)
        → ((t' : Terminal) → write (cs ++ ds) t' ≡ (write cs t' >>= λ t''. write ds t''))
        → (m >>= λ t'. write (cs ++ ds) t') ≡ ((m >>= λ t'. write cs t') >>= λ t'. write ds t')
    go (ok t') ih = ih t'
    go undefined ih = refl
    go halt ih = refl

-- A terminal in order takes any text.
write_total :
    (cs : List ℕ) (t : Terminal)
    → IsTerminal t
    → (t' : Terminal) × (write cs t ≡ ok t') × IsTerminal t'
unfolding write
write_total [] t v = (t, refl, v)
write_total (c ∷ cs) t v =
    let (t₁, run, v₁, moved, put, color) = put_char_lem c t v in
    let (t', run', v') = write_total cs t₁ v₁ in
    (t', ap (λ m. m >>= λ r. write cs r) run ∙ run', v')

-- One round of the loop on a terminal in order, where the text so far still fits an int.
round :
    (fuel written c : ℕ) (format : List ℕ) (args : List Argument) (t t' : Terminal) (shown : List ℕ)
    → (p : Printed (c ∷ format) args shown) → ltb (int_max - written) (length p.out) ≡ false
    → write p.out t ≡ ok t'
    → printf_from (suc fuel) written (c ∷ format) args t
      ≡ printf_from fuel (written + length p.out) p.format' p.args' t'
unfolding printf_from
round fuel written c format args t t' shown p fits run =
    let printed : print p.out t ≡ ok (true, t') =
      print-write p.out t ∙ ap (λ m. m >>= λ r. ok (true, r)) run in
    rw (p.runs, fits, printed)

stop :
    (fuel written c : ℕ) (format : List ℕ) (args : List Argument) (t : Terminal) (shown : List ℕ)
    → (p : Printed (c ∷ format) args shown) → ltb (int_max - written) (length p.out) ≡ true
    → printf_from (suc fuel) written (c ∷ format) args t ≡ ok (negsuc 0, t)
unfolding printf_from
stop fuel written c format args t shown p over = rw (p.runs, over)

-- The text that fits is written and counted.
printf_from-write :
    (fuel written : ℕ) (format : List ℕ) (args : List Argument) (t : Terminal) (shown : List ℕ)
    → IsTerminal t
    → rendered format args ≡ ok shown
    → length format ≤ fuel
    → written + length shown ≤ int_max
    → printf_from fuel written format args t
      ≡ (write shown t >>= λ t'. ok (pos (written + length shown), t'))
unfolding printf_from rendered write
printf_from-write fuel written [] args t shown v e enough fits =
    let same : [] ≡ shown = cc in
    subst
      (λ (cs : List ℕ).
        ◌≡◌ {A = Run (ℤ × Terminal)} (ok (pos written, t))
          (write cs t >>= λ t'. ok (pos (written + length cs), t')))
      same (let none : written + 0 ≡ written = omega arith in rw none)
printf_from-write zero written (c ∷ format) args t shown v e enough fits = elim enough [ ]
printf_from-write (suc fuel) written (c ∷ format) args t shown v e enough fits =
    let p = directive-Printed c format args shown e in
    let total : length shown ≡ length p.out + length p.rest =
      ap length p.splits ∙ length-append p.out p.rest in
    let (t₁, run, v₁) = write_total p.out t v in
    let ih =
      printf_from-write fuel (written + length p.out) p.format' p.args' t₁ p.rest v₁ p.renders
        (omega (arith, p.shorter)) (omega (arith, total)) in
    let count : written + length p.out + length p.rest ≡ written + length shown =
      omega (arith, total) in
    let whole : write shown t ≡ write p.rest t₁ =
      ap (λ cs. write cs t) p.splits
      ∙ write-append p.out p.rest t
      ∙ ap (λ m. m >>= λ r. write p.rest r) run in
    round fuel written c format args t t₁ shown p (ground (arith, total)) run
    ∙ ih
    ∙ ap (λ (k : ℕ). write p.rest t₁ >>= λ t'. ok (pos k, t')) count
    ∙ ap (λ m. m >>= λ t'. ok (pos (written + length shown), t')) (sym whole)

-- The text that does not fit ends the loop with -1.
printf_from_overflow :
    (fuel written : ℕ) (format : List ℕ) (args : List Argument) (t : Terminal) (shown : List ℕ)
    → IsTerminal t
    → rendered format args ≡ ok shown
    → length format ≤ fuel
    → written ≤ int_max
    → int_max < written + length shown
    → (t' : Terminal) × (printf_from fuel written format args t ≡ ok (negsuc 0, t')) × IsTerminal t'
unfolding rendered
printf_from_overflow fuel written [] args t shown v e enough low over =
    let same : [] ≡ shown = cc in absurd (omega (arith, ap length same))
printf_from_overflow zero written (c ∷ format) args t shown v e enough low over = elim enough [ ]
printf_from_overflow (suc fuel) written (c ∷ format) args t shown v e enough low over =
    let p = directive-Printed c format args shown e in
    let total : length shown ≡ length p.out + length p.rest =
      ap length p.splits ∙ length-append p.out p.rest in
    elim (Bool-cases (ltb (int_max - written) (length p.out))) [
      | inl here ↦ (t, stop fuel written c format args t shown p here, v)
      | inr later ↦
          let (t₁, run, v₁) = write_total p.out t v in
          let (t', rest, v') =
            printf_from_overflow fuel (written + length p.out) p.format' p.args' t₁ p.rest v₁
              p.renders (omega (arith, p.shorter)) (ground arith) (omega (arith, total)) in
          (t', round fuel written c format args t t₁ shown p later run ∙ rest, v')
    ]

-- Where the text of the format and its arguments has at most INT_MAX bytes, `printf` on a terminal in
-- order, with a round of its loop for each byte of the format, is one `Write` of that text, and it
-- returns the text's length.
pub printf-write :
    (fuel : ℕ) (format : List ℕ) (args : List Argument) (t : Terminal) (shown : List ℕ)
    → IsTerminal t
    → rendered format args ≡ ok shown
    → length format ≤ fuel
    → length shown ≤ int_max
    → (t' : Terminal) × (printf fuel format args t ≡ ok (pos (length shown), t'))
      × (write shown t ≡ ok t')
      × IsTerminal t'
unfolding printf
printf-write fuel format args t shown v e enough fits =
    let (t', run, v') = write_total shown t v in
    let start : 0 + length shown ≡ length shown = omega arith in
    (
      t',
      printf_from-write fuel 0 format args t shown v e enough (omega arith)
          ∙ ap (λ m. m >>= λ r. ok (pos (0 + length shown), r)) run
          ∙ ap (λ (k : ℕ). ok (pos k, t')) start,
      run,
      v',
    )

-- Where the text has more than INT_MAX bytes, `printf` on a terminal in order returns -1, and leaves
-- the terminal in order.
pub printf_overflow :
    (fuel : ℕ) (format : List ℕ) (args : List Argument) (t : Terminal) (shown : List ℕ)
    → IsTerminal t
    → rendered format args ≡ ok shown
    → length format ≤ fuel
    → int_max < length shown
    → (t' : Terminal) × (printf fuel format args t ≡ ok (negsuc 0, t')) × IsTerminal t'
unfolding printf
printf_overflow fuel format args t shown v e enough over =
    printf_from_overflow fuel 0 format args t shown v e enough (omega arith) (omega arith)
