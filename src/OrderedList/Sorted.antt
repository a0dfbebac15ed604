-- ===== src/OrderedList/Sorted.antt =====
-- The order of the list over any sequence of calls.
use mathlib.Core.Path.{subst}
use loris.Base.{ℕ, zero, suc, ◌<◌, ◌≡◌, sym, Bool, true, false, List, [], ◌∷◌, ok}
use loris.OrderedList.{OrderedList, insert, remove}
use loris.OrderedList.Spec.{
  contents, IsOrderedList, erase_at, Above, IsSorted, insert_sorted-IsSorted,
}
use loris.OrderedList.Insert.{insert-insert_sorted}
use loris.OrderedList.Remove.{remove-erase_at}

module _ {T : Type 0} (less_than : T → T → Bool) where
  -- The lists that come from `l₀` by insertions while there is room and removals of elements in use.
  pub data Reach (l₀ : OrderedList T) : OrderedList T → Type 0 where
    start : Reach l₀ l₀
    inserted :
        (item : T) (l l' : OrderedList T)
        → Reach l₀ l
        → l.size < l.max_size
        → insert less_than item l ≡ ok l'
        → Reach l₀ l'
    removed :
        (i : ℕ) (l l' : OrderedList T)
        → Reach l₀ l
        → i < l.size
        → l.size < l.max_size
        → remove i l ≡ ok l'
        → Reach l₀ l'

  module _ (asymmetric : (a b : T) → less_than a b ≡ true → less_than b a ≡ false)
      (chain : (a b c : T)
        → less_than b a ≡ false
        → less_than c b ≡ false
        → less_than c a ≡ false) where
    Above-erase_at :
        (x : T) (i : ℕ) (ys : List T)
        → Above less_than x ys
        → IsSorted less_than ys
        → Above less_than x (erase_at i ys)
    unfolding erase_at
    Above-erase_at x i [] a s = tt
    Above-erase_at x zero (y ∷ []) a s = tt
    Above-erase_at x zero (y ∷ z ∷ zs) a s = chain x y z a s.0
    Above-erase_at x (suc i) (y ∷ ys) a s = a

    erase_at-IsSorted :
        (i : ℕ) (xs : List T) → IsSorted less_than xs → IsSorted less_than (erase_at i xs)
    unfolding erase_at
    erase_at-IsSorted i [] s = tt
    erase_at-IsSorted zero (x ∷ xs) s = s.1
    erase_at-IsSorted (suc i) (x ∷ xs) s =
        (Above-erase_at x i xs s.0 s.1, erase_at-IsSorted i xs s.1)

    -- From a well-formed list in order, such as an empty one, every sequence of insertions while there
    -- is room and of removals of elements in use from a list that is not full keeps the list
    -- well-formed and in order, for a predicate that is asymmetric and whose negation is transitive.
    pub Reach-IsSorted :
        (l₀ l : OrderedList T)
        → IsOrderedList l₀
        → IsSorted less_than (contents l₀)
        → Reach l₀ l
        → IsOrderedList l × IsSorted less_than (contents l)
    Reach-IsSorted l₀ _ wf s start = (wf, s)
    Reach-IsSorted l₀ _ wf s (inserted item before after reach room e) =
        let (wf', s') = Reach-IsSorted l₀ before wf s reach in
        let (r, run, wf_r, _, _, spec) = insert-insert_sorted less_than item before wf' room in
        let same : r ≡ after = cc (run, e) in
        subst (λ (t : OrderedList T). IsOrderedList t × IsSorted less_than (contents t)) same
          (
            wf_r,
            subst (IsSorted less_than) (sym spec)
                (insert_sorted-IsSorted less_than asymmetric item (contents before) s'),
          )
    Reach-IsSorted l₀ _ wf s (removed i before after reach inside room e) =
        let (wf', s') = Reach-IsSorted l₀ before wf s reach in
        let (r, run, wf_r, _, _, spec) = remove-erase_at i before wf' inside room in
        let same : r ≡ after = cc (run, e) in
        subst (λ (t : OrderedList T). IsOrderedList t × IsSorted less_than (contents t)) same
          (wf_r, subst (IsSorted less_than) (sym spec) (erase_at-IsSorted i (contents before) s'))
