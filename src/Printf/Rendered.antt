-- ===== src/Printf/Rendered.antt =====
-- What a format and its arguments stand for, read one byte at a time, and the directives of `printf`
-- against it.
use mathlib.Core.Path.{subst}
use mathlib.Core.List.{append-nil}
use loris.Base.{
  ℕ, suc, ◌+◌, ◌≤◌, ◌<◌, ◌≡◌, refl, sym, ap, ◌∙◌, inl, inr, arith, true, false, List, [], ◌∷◌, ◌++◌,
  take, drop, length, Run, ok, ◌>>=◌, ok_of_chain, u8, ◌==◌, ==_iff, if◌then◌else◌, Bool-cases,
}
use loris.Printf.{Argument, next_int, next_text, amount_from, directive}

-- The text of a format: `%%` is a percent sign, `%c` and `%s` are the next argument, any other `%`
-- prints itself and all that follows.
unfoldable pub rendered : List ℕ → List Argument → Run (List ℕ)
rendered [] args = ok []
rendered (c ∷ []) args = ok (c ∷ [])
rendered (c ∷ d ∷ format) args =
    let behind = rendered format in
    let literal = (do r ← rendered (d ∷ format) args; ok (c ∷ r)) in
    let percent = (do r ← behind args; ok (d ∷ r)) in
    let char = (do (v, args') ← next_int args; r ← behind args'; ok (u8 v ∷ r)) in
    let string = (do (s, args') ← next_text args; r ← behind args'; ok (s ++ r)) in
    if c == b'%'
    then if d == b'%'
      then percent
      else if d == b'c'
      then char
      else if d == b's'
      then string
      else ok (c ∷ d ∷ format)
    else literal

rendered_literal :
    (c : ℕ) (format : List ℕ) (args : List Argument)
    → (c == b'%') ≡ false
    → rendered (c ∷ format) args ≡ (rendered format args >>= λ r. ok (c ∷ r))
unfolding rendered
rendered_literal c [] args other = refl
rendered_literal c (d ∷ format) args other = rw other

amount_from-add : (n : ℕ) (format : List ℕ) → amount_from n format ≡ n + amount_from 0 format
unfolding amount_from
amount_from-add n [] = omega arith
amount_from-add n (c ∷ format) = elim (Bool-cases (c == b'%')) [
  | inl e ↦ rw e (omega arith)
  | inr e ↦ rw e (omega (arith, amount_from-add (n + 1) format, amount_from-add 1 format))
]

-- Literal text up to the next `%`.
record Literal (format : List ℕ) (args : List Argument) (shown : List ℕ) (k : ℕ) : Type 0 where
  rest : List ℕ
  renders : rendered (drop k format) args ≡ ok rest
  splits : shown ≡ take k format ++ rest
  within : length (drop k format) ≤ length format

Literal-run :
    (format : List ℕ) (args : List Argument) (shown : List ℕ)
    → rendered format args ≡ ok shown
    → Literal format args shown (amount_from 0 format)
unfolding amount_from
Literal-run [] args shown e = record {
  rest = shown;
  renders = e;
  splits = refl;
  within = omega arith;
}
Literal-run (c ∷ format) args shown e = elim (Bool-cases (c == b'%')) [
  | inl percent ↦
      rw percent (record { rest = shown; renders = e; splits = refl; within = omega arith })
  | inr other ↦
      let (tail, run, same) =
        ok_of_chain (λ r. ok (c ∷ r)) (rendered format args)
          (sym (rendered_literal c format args other) ∙ e) in
      let l = Literal-run format args tail run in
      let whole : c ∷ tail ≡ shown = cc in
      let next : amount_from 1 format ≡ suc (amount_from 0 format) =
        omega (arith, amount_from-add 1 format) in
      rw (other, next)
        (record {
          rest = l.rest;
          renders = l.renders;
          splits = sym whole ∙ ap (λ r. c ∷ r) l.splits;
          within = omega (arith, l.within);
        })
]

-- A directive of a format with a text prints the front of it and leaves a shorter format, and
-- arguments, for the rest.
pub record Printed (format : List ℕ) (args : List Argument) (shown : List ℕ) : Type 0 where
  pub out : List ℕ
  pub format' : List ℕ
  pub args' : List Argument
  pub rest : List ℕ
  pub runs : directive format args ≡ ok (out, format', args')
  pub renders : rendered format' args' ≡ ok rest
  pub splits : shown ≡ out ++ rest
  pub shorter : length format' < length format

-- A literal byte and what follows it up to the next `%`.
literal_Printed :
    (whole : List ℕ) (c : ℕ) (format : List ℕ) (args : List Argument) (shown : List ℕ)
    → directive whole args
      ≡ ok
          (take (amount_from 1 format) (c ∷ format), drop (amount_from 1 format) (c ∷ format), args)
    → length format < length whole
    → (tail : List ℕ) → rendered format args ≡ ok tail
    → shown ≡ c ∷ tail
    → Printed whole args shown
literal_Printed whole c format args shown runs short tail run same =
    let l = Literal-run format args tail run in
    let next : amount_from 1 format ≡ suc (amount_from 0 format) =
      omega (arith, amount_from-add 1 format) in
    record {
      out = c ∷ take (amount_from 0 format) format;
      format' = drop (amount_from 0 format) format;
      args' = args;
      rest = l.rest;
      runs =
          subst
            (λ (k : ℕ). directive whole args ≡ ok (take k (c ∷ format), drop k (c ∷ format), args))
            next runs;
      renders = l.renders;
      splits = same ∙ ap (λ r. c ∷ r) l.splits;
      shorter = omega (arith, l.within);
    }

char_Printed :
    (d : ℕ) (format : List ℕ) (args : List Argument) (shown : List ℕ)
    → (d == b'%') ≡ false
    → (d == b'c') ≡ true
    → rendered (b'%' ∷ d ∷ format) args ≡ ok shown
    → Printed (b'%' ∷ d ∷ format) args shown
unfolding rendered directive
char_Printed d format args shown p c e =
    let (got, taken, e') =
      ok_of_chain (λ (g : ℕ × List Argument). (rendered format g.1 >>= λ r. ok (u8 g.0 ∷ r)))
        (next_int args) (rw (p, c) at e) in
    let (tail, run, same) = ok_of_chain (λ r. ok (u8 got.0 ∷ r)) (rendered format got.1) e' in
    record {
      out = u8 got.0 ∷ [];
      format' = format;
      args' = got.1;
      rest = tail;
      runs = rw (p, c, taken);
      renders = run;
      splits = cc;
      shorter = omega arith;
    }

string_Printed :
    (d : ℕ) (format : List ℕ) (args : List Argument) (shown : List ℕ)
    → (d == b'%') ≡ false
    → (d == b'c') ≡ false
    → (d == b's') ≡ true
    → rendered (b'%' ∷ d ∷ format) args ≡ ok shown
    → Printed (b'%' ∷ d ∷ format) args shown
unfolding rendered directive
string_Printed d format args shown p c s e =
    let (got, taken, e') =
      ok_of_chain (λ (g : List ℕ × List Argument). (rendered format g.1 >>= λ r. ok (g.0 ++ r)))
        (next_text args) (rw (p, c, s) at e) in
    let (tail, run, same) = ok_of_chain (λ r. ok (got.0 ++ r)) (rendered format got.1) e' in
    record {
      out = got.0;
      format' = format;
      args' = got.1;
      rest = tail;
      runs = rw (p, c, s, taken);
      renders = run;
      splits = cc;
      shorter = omega arith;
    }

other_Printed :
    (d : ℕ) (format : List ℕ) (args : List Argument) (shown : List ℕ)
    → (d == b'%') ≡ false
    → (d == b'c') ≡ false
    → (d == b's') ≡ false
    → rendered (b'%' ∷ d ∷ format) args ≡ ok shown
    → Printed (b'%' ∷ d ∷ format) args shown
unfolding rendered directive
other_Printed d format args shown p c s e =
    let same = rw (p, c, s) at e in
    record {
      out = b'%' ∷ d ∷ format;
      format' = [];
      args' = args;
      rest = [];
      runs = rw (p, c, s);
      renders = refl;
      splits = cc (append-nil (b'%' ∷ d ∷ format));
      shorter = omega arith;
    }

percent_Printed :
    (d : ℕ) (format : List ℕ) (args : List Argument) (shown : List ℕ)
    → rendered (b'%' ∷ d ∷ format) args ≡ ok shown
    → Printed (b'%' ∷ d ∷ format) args shown
unfolding rendered directive
percent_Printed d format args shown e = elim (Bool-cases (d == b'%')) [
  | inl percent ↦
      let (tail, run, same) =
        ok_of_chain (λ r. ok (d ∷ r)) (rendered format args) (rw percent at e) in
      literal_Printed (b'%' ∷ d ∷ format) d format args shown (rw percent) (omega arith) tail run
        (cc)
  | inr p ↦ elim (Bool-cases (d == b'c')) [
    | inl c ↦ char_Printed d format args shown p c e
    | inr c ↦ elim (Bool-cases (d == b's')) [
      | inl s ↦ string_Printed d format args shown p c s e
      | inr s ↦ other_Printed d format args shown p c s e
    ]
  ]
]

pub directive-Printed :
    (c : ℕ) (format : List ℕ) (args : List Argument) (shown : List ℕ)
    → rendered (c ∷ format) args ≡ ok shown
    → Printed (c ∷ format) args shown
unfolding directive rendered
directive-Printed c format args shown e = elim (Bool-cases (c == b'%')) [
  | inr other ↦
      let (tail, run, same) =
        ok_of_chain (λ r. ok (c ∷ r)) (rendered format args)
          (sym (rendered_literal c format args other) ∙ e) in
      literal_Printed (c ∷ format) c format args shown (rw other) (omega arith) tail run (cc)
  | inl percent ↦
      let is : b'%' ≡ c = sym ((==_iff c b'%').0 percent) in
      subst (λ (k : ℕ). Printed (k ∷ format) args shown) is
        (at_percent format (subst (λ (k : ℕ). rendered (k ∷ format) args ≡ ok shown) (sym is) e))
]
  where
    at_percent :
        (format : List ℕ)
        → rendered (b'%' ∷ format) args ≡ ok shown
        → Printed (b'%' ∷ format) args shown
    at_percent [] e' = record {
      out = b'%' ∷ [];
      format' = [];
      args' = args;
      rest = [];
      runs = refl;
      renders = refl;
      splits = cc;
      shorter = omega arith;
    }
    at_percent (d ∷ format) e' = percent_Printed d format args shown e'
