-- ===== src/OrderedList/Places.antt =====
-- Places of items in a list and in the contents of an ordered list.
use mathlib.Core.List.{Perm}
use mathlib.Core.List.Perm
use native.Mathlib.Decide.{ℕ_discrete}
use mathlib.Core.Path.{subst}
use loris.Base.{
  ℕ, zero, suc, ◌≤◌, ◌<◌, ◌≡◌, refl, sym, ap, ◌∙◌, ◌≢◌, inl, inr, arith, Bool, List, [], ◌∷◌,
  length, get_or, take, Bool-cases,
}
use loris.OrderedList.{OrderedList}
use loris.OrderedList.Spec.{contents, IsOrderedList, insert_sorted, insert_sorted-perm, erase_at}

-- The first place of an item that is in the list somewhere.
first_place :
    (xs : List ℕ) (a r : ℕ)
    → r < length xs
    → get_or xs r 0 ≡ a
    → (i : ℕ) × (i < length xs) × (get_or xs i 0 ≡ a) × ((j : ℕ) → j < i → get_or xs j 0 ≢ a)
first_place [] a r h e = elim h [ ]
first_place (x ∷ xs) a r h e = elim (ℕ_discrete x a) [
  | yes same ↦ (0, omega arith, same, λ j p. elim p [ ])
  | no other ↦ later x xs a r h e other (first_place xs a)
]
  where
    later :
        (x : ℕ) (xs : List ℕ) (a r : ℕ)
        → r < suc (length xs)
        → get_or (x ∷ xs) r 0 ≡ a
        → x ≢ a
        → ((r : ℕ)
            → r < length xs
            → get_or xs r 0 ≡ a
            → (i : ℕ) × (i < length xs)
              × (get_or xs i 0 ≡ a)
              × ((j : ℕ) → j < i → get_or xs j 0 ≢ a))
        → (i : ℕ) × (i < suc (length xs))
          × (get_or (x ∷ xs) i 0 ≡ a)
          × ((j : ℕ) → j < i → get_or (x ∷ xs) j 0 ≢ a)
    later x xs a zero h e other ih = absurd (other e)
    later x xs a (suc r) h e other ih =
        let (i, p, at, first) = ih r (omega arith) e in (suc i, omega arith, at, shifted first)
      where
        shifted :
            {i : ℕ}
            → ((j : ℕ) → j < i → get_or xs j 0 ≢ a)
            → (j : ℕ) → j < suc i
            → get_or (x ∷ xs) j 0 ≢ a
        shifted first zero p = other
        shifted first (suc j) p = first j (omega arith)

-- An item that is taken out at its place and put in again.
pub erase_at-perm : (i : ℕ) (xs : List ℕ) → i < length xs → Perm xs (get_or xs i 0 ∷ erase_at i xs)
unfolding erase_at
erase_at-perm i [] h = elim h [ ]
erase_at-perm zero (x ∷ xs) h = Perm.refl _
erase_at-perm (suc i) (x ∷ xs) h =
    Perm.trans (Perm.cons x (erase_at-perm i xs (omega arith)))
      (Perm.swap (get_or xs i 0) x (erase_at i xs))

pub get_or-take :
    (n i : ℕ) (xs : List ℕ) → i < n → n ≤ length xs → get_or (take n xs) i 0 ≡ get_or xs i 0
get_or-take zero i xs h h' = elim h [ ]
get_or-take (suc n) i [] h h' = elim h' [ ]
get_or-take (suc n) zero (x ∷ xs) h h' = refl
get_or-take (suc n) (suc i) (x ∷ xs) h h' = get_or-take n i xs (omega arith) (omega arith)

pub length-take : (n : ℕ) (xs : List ℕ) → n ≤ length xs → length (take n xs) ≡ n
length-take zero xs h = refl
length-take (suc n) [] h = elim h [ ]
length-take (suc n) (x ∷ xs) h = ap suc (length-take n xs (omega arith))

place_of :
    (less_than : ℕ → ℕ → Bool) (item : ℕ) (xs : List ℕ)
    → (r : ℕ) × (r < length (insert_sorted less_than item xs))
      × (get_or (insert_sorted less_than item xs) r 0 ≡ item)
unfolding insert_sorted
place_of less_than item [] = (0, omega arith, refl)
place_of less_than item (x ∷ xs) = elim (Bool-cases (less_than x item)) [
  | inl h ↦ let (r, p, e) = place_of less_than item xs in rw h (suc r, omega arith, e)
  | inr h ↦ rw h (0, omega arith, refl)
]

-- The first place in the index of an item that was put into its contents.
pub first_place_of :
    (index : OrderedList ℕ) (less_than : ℕ → ℕ → Bool) (item : ℕ) (xs : List ℕ)
    → IsOrderedList index
    → contents index ≡ insert_sorted less_than item xs
    → (i : ℕ) × (i < index.size)
      × (get_or index.elements i 0 ≡ item)
      × ((j : ℕ) → j < i → get_or index.elements j 0 ≢ item)
      × Perm (erase_at i (contents index)) xs
first_place_of index less_than item xs wf e =
    let (r, p, at) = place_of less_than item xs in
    let fits : index.size ≤ length index.elements = omega (arith, wf.fits, wf.capacity) in
    let count : length (contents index) ≡ index.size = length-take index.size index.elements fits in
    let same : (k : ℕ) → k < index.size → get_or (contents index) k 0 ≡ get_or index.elements k 0 =
      λ k h. get_or-take index.size k index.elements h fits in
    let (i, q, here, first) =
      first_place (contents index) item r (subst (λ (l : List ℕ). r < length l) (sym e) p)
        (subst (λ (l : List ℕ). get_or l r 0 ≡ item) (sym e) at) in
    let inside : i < index.size = omega (arith, count) in
    (
      i,
      inside,
      sym (same i inside) ∙ here,
      λ j h found. first j h (same j (omega arith) ∙ found),
      Perm.cons_inv (
          subst (λ (a : ℕ). Perm (a ∷ erase_at i (contents index)) (item ∷ xs)) here
            (Perm.trans (Perm.symm (erase_at-perm i (contents index) q)) (
              subst (λ (l : List ℕ). Perm l (item ∷ xs)) (sym e)
                (insert_sorted-perm less_than item xs)))),
    )
