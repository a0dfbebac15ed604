-- ===== src/OrderedList/Spec.antt =====
-- What an ordered list stands for, the sequence of its elements in use, and the two operations on
-- sequences that `Insert` and `Remove` implement.
use mathlib.Core.List.{Perm}
use mathlib.Core.List.Perm
use loris.Base.{
  ℕ, zero, suc, ◌≤◌, ◌<◌, ◌≡◌, refl, ap, Bool, true, false, List, [], ◌∷◌, ◌++◌, arith, length, Run,
  ok, ◌>>=◌, ◌^◌, inl, inr, take, if◌then◌else◌, Bool-cases,
}
use loris.OrderedList.{OrderedList}

module _ {ℓ} {T : Type ℓ} where
  -- The result of a run on the tail of an array, with the head put back.
  abbrev pub consed : T → Run (List T) → Run (List T)
  consed x m = m >>= λ r. ok (x ∷ r)

  abbrev pub contents : OrderedList T → List T
  contents l = take l.size l.elements

  -- The array has its declared length, a uint32_t, and the elements in use fit it.
  pub record IsOrderedList (l : OrderedList T) : Type 0 where
    pub capacity : length l.elements ≡ l.max_size
    pub fits : l.size ≤ l.max_size
    pub in_width : l.max_size < 2 ^ 32

  unfoldable pub erase_at : ℕ → List T → List T
  erase_at i [] = []
  erase_at zero (x ∷ xs) = xs
  erase_at (suc i) (x ∷ xs) = x ∷ erase_at i xs

module _ {ℓ} {T : Type ℓ} (less_than : T → T → Bool) where
  -- Behind all elements that are less.
  unfoldable pub insert_sorted : T → List T → List T
  insert_sorted item [] = item ∷ []
  insert_sorted item (x ∷ xs) =
      if less_than x item then x ∷ insert_sorted item xs else item ∷ x ∷ xs

  -- No element is less than the one before it.
  abbrev pub Above : T → List T → Type 0
  Above x [] = Unit
  Above x (y ∷ ys) = less_than y x ≡ false

  abbrev pub IsSorted : List T → Type 0
  IsSorted [] = Unit
  IsSorted (x ∷ xs) = Above x xs × IsSorted xs

  module _ (asymmetric : (a b : T) → less_than a b ≡ true → less_than b a ≡ false) where
    Above-insert_sorted :
        (x item : T) (xs : List T)
        → less_than x item ≡ true
        → Above x xs
        → Above x (insert_sorted item xs)
    unfolding insert_sorted
    Above-insert_sorted x item [] h a = asymmetric x item h
    Above-insert_sorted x item (y ∷ ys) h a = ground (arith, asymmetric x item)

    pub insert_sorted-IsSorted :
        (item : T) (xs : List T) → IsSorted xs → IsSorted (insert_sorted item xs)
    unfolding insert_sorted
    insert_sorted-IsSorted item [] s = (tt, tt)
    insert_sorted-IsSorted item (x ∷ xs) (a, s) = elim (Bool-cases (less_than x item)) [
      | inl h ↦ rw h (Above-insert_sorted x item xs h a, insert_sorted-IsSorted item xs s)
      | inr h ↦ rw h (h, (a, s))
    ]

  pub length-insert_sorted :
      (item : T) (xs : List T) → length (insert_sorted item xs) ≡ suc (length xs)
  unfolding insert_sorted
  length-insert_sorted item [] = refl
  length-insert_sorted item (x ∷ xs) = ground (arith, length-insert_sorted item xs)

  pub insert_sorted-perm : (item : T) (xs : List T) → Perm (insert_sorted item xs) (item ∷ xs)
  unfolding insert_sorted
  insert_sorted-perm item [] = Perm.refl _
  insert_sorted-perm item (x ∷ xs) = elim (Bool-cases (less_than x item)) [
    | inl h ↦ rw h (Perm.trans (Perm.cons x (insert_sorted-perm item xs)) (Perm.swap item x xs))
    | inr h ↦ rw h (Perm.refl _)
  ]

module _ {ℓ} {T : Type ℓ} where
  pub take-append : (n : ℕ) (xs ys : List T) → length xs ≡ n → take n (xs ++ ys) ≡ xs
  take-append zero [] ys h = refl
  take-append zero (x ∷ xs) ys h = absurd (omega arith)
  take-append (suc n) [] ys h = absurd (omega arith)
  take-append (suc n) (x ∷ xs) ys h = ap (λ r. x ∷ r) (take-append n xs ys (omega arith))

  -- An array with room is the elements in use, a slot, and the rest.
  pub split_at_size :
      (n : ℕ) (es : List T)
      → n < length es
      → (xs : List T) × (z : T) × (rest : List T) × (es ≡ xs ++ z ∷ rest)
        × (length xs ≡ n)
        × (take n es ≡ xs)
  split_at_size n [] h = elim h [ ]
  split_at_size zero (x ∷ es) h = ([], x, es, refl, refl, refl)
  split_at_size (suc n) (x ∷ es) h =
      let (xs, z, rest, e, l, t) = split_at_size n es (omega arith) in
      (x ∷ xs, z, rest, ap (λ r. x ∷ r) e, ap suc l, ap (λ r. x ∷ r) t)
