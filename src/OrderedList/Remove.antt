-- ===== src/OrderedList/Remove.antt =====
-- `Remove` against removal from the sequence.
use mathlib.Core.Path.{subst}
use loris.Base.{
  ℕ, zero, suc, ◌+◌, ◌-◌, ◌≤◌, ◌<◌, ◌≡◌, refl, ap, sym, ◌∙◌, List, [], ◌∷◌, ◌++◌, arith, length, ok,
  undefined, ◌>>=◌, >>=-assoc, sub32, length-append,
}
use loris.OrderedList.{OrderedList, shift_down, remove}
use loris.OrderedList.Spec.{consed, contents, IsOrderedList, erase_at, take-append, split_at_size}

module _ {ℓ} {T : Type ℓ} where
  shift_down_cons :
      (left i : ℕ) (x : T) (es : List T)
      → shift_down left (suc i) (x ∷ es) ≡ consed x (shift_down left i es)
  unfolding shift_down
  shift_down_cons zero i x es = refl
  shift_down_cons (suc left) i x es =
      let ih : (r : List T)
          → shift_down left (suc (suc i)) (x ∷ r) ≡ consed x (shift_down left (suc i) r) =
        λ r. shift_down_cons left (suc i) x r in
      simp (>>=-assoc, ih)

  shift_down_first :
      (x z : T) (ys rest : List T)
      → shift_down (suc (length ys)) 0 (x ∷ ys ++ z ∷ rest) ≡ ok (ys ++ z ∷ z ∷ rest)
  unfolding shift_down
  shift_down_first x z [] rest = refl
  shift_down_first x z (y ∷ ys) rest =
      shift_down_cons (suc (length ys)) 0 y (y ∷ ys ++ z ∷ rest)
      ∙ ap (consed y) (shift_down_first y z ys rest)

  shift_down-erase_at :
      (i : ℕ) (z : T) (xs rest : List T)
      → i < length xs
      → shift_down (length xs - i) i (xs ++ z ∷ rest) ≡ ok (erase_at i xs ++ z ∷ z ∷ rest)
  unfolding erase_at
  shift_down-erase_at i z [] rest h = elim h [ ]
  shift_down-erase_at zero z (x ∷ xs) rest h =
      let left : suc (length xs) - 0 ≡ suc (length xs) = omega arith in
      rw left (shift_down_first x z xs rest)
  shift_down-erase_at (suc i) z (x ∷ xs) rest h =
      let left : suc (length xs) - suc i ≡ length xs - i = omega arith in
      rw left (
        shift_down_cons (length xs - i) i x (xs ++ z ∷ rest)
        ∙ ap (consed x) (shift_down-erase_at i z xs rest (omega arith)))

  length-erase_at : (i : ℕ) (xs : List T) → i < length xs → suc (length (erase_at i xs)) ≡ length xs
  unfolding erase_at
  length-erase_at i [] h = elim h [ ]
  length-erase_at zero (x ∷ xs) h = refl
  length-erase_at (suc i) (x ∷ xs) h = ap suc (length-erase_at i xs (omega arith))

  shift_down_at :
      (i n : ℕ) (z : T) (xs rest es : List T)
      → es ≡ xs ++ z ∷ rest
      → length xs ≡ n
      → i < n
      → shift_down (n - i) i es ≡ ok (erase_at i xs ++ z ∷ z ∷ rest)
  shift_down_at i n z xs rest es split size h =
      rw (split, ← size) (shift_down-erase_at i z xs rest (omega arith))

  remove-shift_down :
      (i : ℕ) (l : OrderedList T) (es : List T)
      → shift_down (l.size - i) i l.elements ≡ ok es
      → remove i l ≡ ok (record l { elements = es; size = sub32 l.size 1 })
  unfolding remove
  remove-shift_down i l es e =
      ap (λ m. m >>= λ r. ok (record l { elements = r; size = sub32 l.size 1 })) e

  -- `Remove` of an element in use, on a well-formed list that is not full, returns, keeps the list
  -- well-formed and removes that element from the sequence, and no other.
  pub remove-erase_at :
      (i : ℕ) (l : OrderedList T)
      → IsOrderedList l
      → i < l.size
      → l.size < l.max_size
      → (l' : OrderedList T) × (remove i l ≡ ok l')
        × IsOrderedList l'
        × (l'.size + 1 ≡ l.size)
        × (l'.max_size ≡ l.max_size)
        × (contents l' ≡ erase_at i (contents l))
  remove-erase_at i l wf inside room =
      let (xs, z, rest, split, n, t) =
        split_at_size l.size l.elements (omega (arith, wf.capacity)) in
      let es : List T = erase_at i xs ++ z ∷ z ∷ rest in
      let size : sub32 l.size 1 + 1 ≡ l.size = omega (arith, wf.in_width) in
      let count = length-erase_at i xs (omega arith) in
      (
        record l { elements = es; size = sub32 l.size 1 },
        remove-shift_down i l es (shift_down_at i l.size z xs rest l.elements split n inside),
        record {
          capacity = omega (
            arith,
            wf.capacity,
            count,
            ap length split,
            length-append (erase_at i xs) (z ∷ z ∷ rest),
            length-append xs (z ∷ rest),
          );
          fits = omega (arith, wf.fits);
          in_width = wf.in_width;
        },
        size,
        refl,
        take-append (sub32 l.size 1) (erase_at i xs) (z ∷ z ∷ rest) (omega arith)
            ∙ ap (erase_at i) (sym t),
      )

  -- An index at or behind the end is not refused: the list loses its last element, and an empty
  -- list claims 2 ^ 32 - 1 elements.
  pub remove_outside :
      (i : ℕ) (l : OrderedList T)
      → l.size ≤ i
      → remove i l ≡ ok (record l { size = sub32 l.size 1 })
  unfolding shift_down
  remove_outside i l h =
      let left : l.size - i ≡ 0 = omega arith in
      remove-shift_down i l l.elements
        (subst (λ (n : ℕ). shift_down n i l.elements ≡ ok l.elements) (sym left) refl)

  shift_down_full :
      (i : ℕ) (xs : List T) → i < length xs → shift_down (length xs - i) i xs ≡ undefined
  unfolding shift_down
  shift_down_full i [] h = elim h [ ]
  shift_down_full zero (x ∷ []) h = refl
  shift_down_full zero (x ∷ y ∷ xs) h =
      let left : suc (suc (length xs)) - 0 ≡ suc (suc (length xs)) = omega arith in
      let rest : suc (length xs) - 0 ≡ suc (length xs) = omega arith in
      rw left (
        shift_down_cons (suc (length xs)) 0 y (y ∷ xs)
        ∙ ap (consed y) (
            subst (λ (n : ℕ). shift_down n 0 (y ∷ xs) ≡ undefined) rest
              (shift_down_full zero (y ∷ xs) (omega arith))))
  shift_down_full (suc i) (x ∷ xs) h =
      let left : suc (length xs) - suc i ≡ length xs - i = omega arith in
      rw left (
        shift_down_cons (length xs - i) i x xs ∙ ap (consed x) (shift_down_full i xs (omega arith)))

  -- On a full list `Remove` of an element in use always reads the element behind the array.
  pub remove_full :
      (i : ℕ) (l : OrderedList T)
      → IsOrderedList l
      → i < l.size
      → l.size ≡ l.max_size
      → remove i l ≡ undefined
  unfolding remove
  remove_full i l wf inside full =
      let at : shift_down (l.size - i) i l.elements ≡ undefined =
        subst (λ (n : ℕ). shift_down (n - i) i l.elements ≡ undefined) (omega (arith, wf.capacity))
          (shift_down_full i l.elements (omega (arith, wf.capacity))) in
      ap (λ m. m >>= λ r. ok (record l { elements = r; size = sub32 l.size 1 })) at
