-- ===== src/FileSystem/Text.antt =====
-- Texts in memory: the bytes before a zero, and their comparison.
use loris.Base.{
  ℕ, zero, suc, ◌+◌, ◌≤◌, ◌<◌, ◌≡◌, refl, ◌↔◌, inl, inr, arith, Bool, true, false, ◌&&◌, List, [],
  ◌∷◌, Memory, Run, ok, undefined, ◌>>=◌, ok_of_chain, ◌==◌, if◌then◌else◌, Bool-cases,
}

-- `strcpy` from address `a` into a buffer of `room` bytes that was cleared or is read as a string: the
-- bytes before the zero. Where the zero comes too late, the copy runs over the buffer.
unfoldable pub string_from : (room : ℕ) → Memory → (a : ℕ) → Run (List ℕ)
string_from zero m a = undefined
string_from (suc room) m a =
    let rest = string_from room m (a + 1) in if m a == 0 then ok [] else rest >>= λ r. ok (m a ∷ r)

-- `!strcmp(x, y)`.
unfoldable pub same_text : List ℕ → List ℕ → Bool
same_text [] [] = true
same_text [] (y ∷ ys) = false
same_text (x ∷ xs) [] = false
same_text (x ∷ xs) (y ∷ ys) = x == y && same_text xs ys

pub same_text_iff : (xs ys : List ℕ) → (same_text xs ys ≡ true) ↔ (xs ≡ ys)
unfolding same_text
same_text_iff [] [] = (λ e. refl, λ e. refl)
same_text_iff [] (y ∷ ys) = (λ e. cc, λ e. cc)
same_text_iff (x ∷ xs) [] = (λ e. cc, λ e. cc)
same_text_iff (x ∷ xs) (y ∷ ys) = ground (arith, same_text_iff xs ys)

-- The text is read in any memory that has the same bytes there, and with any more room.
pub string_from_same :
    (room more : ℕ) (m m' : Memory) (a : ℕ) (s : List ℕ)
    → room ≤ more
    → ((x : ℕ) → a ≤ x → x < a + room → m' x ≡ m x)
    → string_from room m a ≡ ok s
    → string_from more m' a ≡ ok s
unfolding string_from
string_from_same zero more m m' a s le same e = cc
string_from_same (suc room) zero m m' a s le same e = elim le [ ]
string_from_same (suc room) (suc more) m m' a s le same e =
    let here = same a (omega arith) (omega arith) in
    elim (Bool-cases (m a == 0)) [
      | inl end ↦ rw (here, end) (rw end at e)
      | inr more_bytes ↦
          let (tail, run, whole) =
            ok_of_chain (λ r. ok (m a ∷ r)) (string_from room m (a + 1)) (rw more_bytes at e) in
          let ih =
            string_from_same room more m m' (a + 1) tail (omega arith)
              (λ x p q. same x (omega arith) (omega arith)) run in
          rw (here, more_bytes, ih) whole
    ]
