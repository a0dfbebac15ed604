-- ===== src/OrderedList/Insert.antt =====
-- `Insert` on an array with room is insertion into the sequence.
use mathlib.Core.Path.{subst}
use loris.Base.{
  ℕ, zero, suc, ◌+◌, ◌-◌, ◌<◌, ◌≡◌, refl, ap, sym, ◌∙◌, inl, inr, Bool, true, false, List, [], ◌∷◌,
  ◌++◌, arith, length, Bool-cases, Run, ok, undefined, ◌>>=◌, >>=-assoc, if->>=, ◌==◌, u32,
  length-append,
}
use loris.OrderedList.{OrderedList, shift_up, find_place, place, insert}
use loris.OrderedList.Spec.{
  consed, contents, IsOrderedList, insert_sorted, length-insert_sorted, take-append, split_at_size,
}

module _ {ℓ} {T : Type ℓ} where
  -- An index past the first element leaves that element alone.
  shift_up_cons :
      (left i : ℕ) (tmp x : T) (es : List T)
      → shift_up left (suc i) tmp (x ∷ es) ≡ consed x (shift_up left i tmp es)
  unfolding shift_up
  shift_up_cons zero i tmp x es = refl
  shift_up_cons (suc left) i tmp x es =
      let ih : (t : T) (r : List T)
          → shift_up left (suc (suc i)) t (x ∷ r) ≡ consed x (shift_up left (suc i) t r) =
        λ t r. shift_up_cons left (suc i) t x r in
      simp (>>=-assoc, ih)

  shift_up_first :
      (x tmp z : T) (ys rest : List T)
      → shift_up (suc (length ys)) 0 tmp (x ∷ ys ++ z ∷ rest) ≡ ok (x ∷ tmp ∷ ys ++ rest)
  unfolding shift_up
  shift_up_first x tmp z [] rest = refl
  shift_up_first x tmp z (y ∷ ys) rest =
      shift_up_cons (suc (length ys)) 0 y x (tmp ∷ ys ++ z ∷ rest)
      ∙ ap (consed x) (shift_up_first tmp y z ys rest)

  place_cons :
      (i n : ℕ) (item x : T) (es : List T)
      → place (suc i) (suc n) item (x ∷ es) ≡ consed x (place i n item es)
  unfolding place
  place_cons i n item x es =
      let same : (suc i == suc n) ≡ (i == n) = ground arith in
      let left : suc n - suc i ≡ n - i = omega arith in
      rw (same, left)
        (elim (Bool-cases (i == n)) [
          | inl e ↦ rw e
          | inr e ↦ rw e (simp (>>=-assoc, shift_up_cons))
        ])

module _ {ℓ} {T : Type ℓ} (less_than : T → T → Bool) where
  find_place_cons :
      (left i : ℕ) (item x : T) (es : List T)
      → find_place less_than left (suc i) item (x ∷ es)
        ≡ (find_place less_than left i item es >>= λ j. ok (suc j))
  unfolding find_place
  find_place_cons zero i item x es = refl
  find_place_cons (suc left) i item x es =
      let ih : find_place less_than left (suc (suc i)) item (x ∷ es)
          ≡ (find_place less_than left (suc i) item es >>= λ j. ok (suc j)) =
        find_place_cons left (suc i) item x es in
      rw ih (simp (>>=-assoc, if->>=))

  place_found : ℕ → T → List T → Run (List T)
  place_found n item es = find_place less_than n 0 item es >>= λ i. place i n item es

  place_found_cons :
      (n : ℕ) (item x : T) (es : List T)
      → less_than x item ≡ true
      → place_found (suc n) item (x ∷ es) ≡ consed x (place_found n item es)
  unfolding place_found find_place
  place_found_cons n item x es h =
      rw h (rw (find_place_cons n 0 item x es) (simp (>>=-assoc, place_cons)))

  place_first :
      (item x z : T) (xs rest : List T)
      → place 0 (suc (length xs)) item (x ∷ xs ++ z ∷ rest) ≡ ok (item ∷ x ∷ xs ++ rest)
  unfolding place
  place_first item x z xs rest =
      let inside : (0 == suc (length xs)) ≡ false = ground arith in
      let left : suc (length xs) - 0 ≡ suc (length xs) = omega arith in
      rw (inside, left) (shift_up_first item x z xs rest)

  -- The two loops together, on the elements in use, a slot and the rest.
  place_found-insert_sorted :
      (item z : T) (xs rest : List T)
      → place_found (length xs) item (xs ++ z ∷ rest) ≡ ok (insert_sorted less_than item xs ++ rest)
  unfolding place_found find_place insert_sorted place
  place_found-insert_sorted item z [] rest = refl
  place_found-insert_sorted item z (x ∷ xs) rest = elim (Bool-cases (less_than x item)) [
    | inl h ↦ rw (
      place_found_cons (length xs) item x (xs ++ z ∷ rest) h,
      place_found-insert_sorted item z xs rest,
      h,
    )
    | inr h ↦ rw h (place_first item x z xs rest)
  ]

  place_found_at :
      (item z : T) (n : ℕ) (xs rest es : List T)
      → es ≡ xs ++ z ∷ rest
      → length xs ≡ n
      → place_found n item es ≡ ok (insert_sorted less_than item xs ++ rest)
  place_found_at item z n xs rest es split size =
      rw (split, ← size) (place_found-insert_sorted item z xs rest)

  insert-place_found :
      (item : T) (l : OrderedList T) (es : List T)
      → place_found l.size item l.elements ≡ ok es
      → insert less_than item l ≡ ok (record l { elements = es; size = u32 (l.size + 1) })
  unfolding insert place_found
  insert-place_found item l es e =
      sym (>>=-assoc (find_place less_than l.size 0 item l.elements) _ _)
      ∙ ap (λ m. m >>= λ r. ok (record l { elements = r; size = u32 (l.size + 1) })) e

  -- `Insert` into a well-formed list with room returns, keeps it well-formed, and puts the item
  -- into the sequence behind the elements at its front that are less than it.
  pub insert-insert_sorted :
      (item : T) (l : OrderedList T)
      → IsOrderedList l
      → l.size < l.max_size
      → (l' : OrderedList T) × (insert less_than item l ≡ ok l')
        × IsOrderedList l'
        × (l'.size ≡ l.size + 1)
        × (l'.max_size ≡ l.max_size)
        × (contents l' ≡ insert_sorted less_than item (contents l))
  insert-insert_sorted item l wf room =
      let (xs, z, rest, split, n, t) =
        split_at_size l.size l.elements (omega (arith, wf.capacity)) in
      let es : List T = insert_sorted less_than item xs ++ rest in
      let size : u32 (l.size + 1) ≡ l.size + 1 = omega (arith, wf.in_width) in
      let count = length-insert_sorted less_than item xs in
      (
        record l { elements = es; size = u32 (l.size + 1) },
        insert-place_found item l es (place_found_at item z l.size xs rest l.elements split n),
        record {
          capacity = omega (
            arith,
            wf.capacity,
            count,
            ap length split,
            length-append (insert_sorted less_than item xs) rest,
            length-append xs (z ∷ rest),
          );
          fits = omega arith;
          in_width = wf.in_width;
        },
        size,
        refl,
        take-append (u32 (l.size + 1)) (insert_sorted less_than item xs) rest (omega arith)
            ∙ ap (insert_sorted less_than item) (sym t),
      )

  -- Without a slot the shifting loop, or the write behind the last element, leaves the array.
  shift_up_full : (tmp x : T) (ys : List T) → shift_up (suc (length ys)) 0 tmp (x ∷ ys) ≡ undefined
  unfolding shift_up
  shift_up_full tmp x [] = refl
  shift_up_full tmp x (y ∷ ys) =
      shift_up_cons (suc (length ys)) 0 y x (tmp ∷ ys) ∙ ap (consed x) (shift_up_full y tmp ys)

  place_full : (item x : T) (xs : List T) → place 0 (suc (length xs)) item (x ∷ xs) ≡ undefined
  unfolding place
  place_full item x xs =
      let inside : (0 == suc (length xs)) ≡ false = ground arith in
      let left : suc (length xs) - 0 ≡ suc (length xs) = omega arith in
      rw (inside, left) (shift_up_full x item xs)

  place_found_full : (item : T) (xs : List T) → place_found (length xs) item xs ≡ undefined
  place_found_full item [] = unfold place_found find_place place in refl
  place_found_full item (x ∷ xs) = elim (Bool-cases (less_than x item)) [
    | inl h ↦ place_found_cons (length xs) item x xs h ∙ ap (consed x) (place_found_full item xs)
    | inr h ↦ unfold place_found find_place in rw h (place_full item x xs)
  ]

  -- `Insert` makes no check: on a full list it always accesses an element behind the array.
  pub insert_full :
      (item : T) (l : OrderedList T)
      → IsOrderedList l
      → l.size ≡ l.max_size
      → insert less_than item l ≡ undefined
  unfolding insert place_found
  insert_full item l wf full =
      let at : place_found l.size item l.elements ≡ undefined =
        subst (λ (n : ℕ). place_found n item l.elements ≡ undefined) (omega (arith, wf.capacity))
          (place_found_full item l.elements) in
      sym (>>=-assoc (find_place less_than l.size 0 item l.elements) _ _)
      ∙ ap (λ m. m >>= λ r. ok (record l { elements = r; size = u32 (l.size + 1) })) at
