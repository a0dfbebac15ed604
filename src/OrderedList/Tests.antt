-- ===== src/OrderedList/Tests.antt =====
-- An ordered list of numbers.
use loris.Base.{◌+◌, ◌≡◌, refl, ◌∷◌, [], arith, ok, ltb, ℕ, true, false}
use loris.OrderedList.{OrderedList, insert, find_place, place, shift_up, remove, shift_down}
use loris.OrderedList.Spec.{contents, IsOrderedList, insert_sorted, erase_at, IsSorted}
use loris.OrderedList.Insert.{insert-insert_sorted}
use loris.OrderedList.Remove.{remove-erase_at}
use loris.OrderedList.Sorted.{start, inserted, removed, Reach-IsSorted}

abbrev two_of_three : OrderedList ℕ
two_of_three = record { elements = 4 ∷ 9 ∷ 0 ∷ []; size = 2; max_size = 3 }

two_of_three-IsOrderedList : IsOrderedList two_of_three
two_of_three-IsOrderedList = record { capacity = refl; fits = omega arith; in_width = omega arith }

insert_run :
    insert ltb 6 two_of_three ≡ ok (record { elements = 4 ∷ 6 ∷ 9 ∷ []; size = 3; max_size = 3 })
unfolding insert find_place place shift_up
insert_run = refl

remove_run :
    remove 0 two_of_three ≡ ok (record { elements = 9 ∷ 0 ∷ 0 ∷ []; size = 1; max_size = 3 })
unfolding remove shift_down
remove_run = refl

insert-insert_sorted_example :
    (l' : OrderedList ℕ) × (insert ltb 6 two_of_three ≡ ok l')
    × IsOrderedList l'
    × (l'.size ≡ 3)
    × (l'.max_size ≡ 3)
    × (contents l' ≡ insert_sorted ltb 6 (4 ∷ 9 ∷ []))
insert-insert_sorted_example =
    insert-insert_sorted ltb 6 two_of_three two_of_three-IsOrderedList (omega arith)

remove-erase_at_example :
    (l' : OrderedList ℕ) × (remove 0 two_of_three ≡ ok l')
    × IsOrderedList l'
    × (l'.size + 1 ≡ 2)
    × (l'.max_size ≡ 3)
    × (contents l' ≡ erase_at 0 (4 ∷ 9 ∷ []))
remove-erase_at_example =
    remove-erase_at 0 two_of_three two_of_three-IsOrderedList (omega arith) (omega arith)

abbrev inserted_list : OrderedList ℕ
inserted_list = record { elements = 4 ∷ 6 ∷ 9 ∷ 0 ∷ []; size = 3; max_size = 4 }

abbrev two_of_four : OrderedList ℕ
two_of_four = record { elements = 4 ∷ 9 ∷ 0 ∷ 0 ∷ []; size = 2; max_size = 4 }

insert_four_run : insert ltb 6 two_of_four ≡ ok inserted_list
unfolding insert find_place place shift_up
insert_four_run = refl

remove_four_run :
    remove 0 inserted_list ≡ ok (record { elements = 6 ∷ 9 ∷ 0 ∷ 0 ∷ []; size = 2; max_size = 4 })
unfolding remove shift_down
remove_four_run = refl

ltb-asymmetric : (a b : ℕ) → ltb a b ≡ true → ltb b a ≡ false
ltb-asymmetric a b h = ground arith

ltb-chain : (a b c : ℕ) → ltb b a ≡ false → ltb c b ≡ false → ltb c a ≡ false
ltb-chain a b c h h' = ground arith

abbrev removed_list : OrderedList ℕ
removed_list = record { elements = 6 ∷ 9 ∷ 0 ∷ 0 ∷ []; size = 2; max_size = 4 }

Reach-IsSorted_example : IsOrderedList removed_list × IsSorted ltb (contents removed_list)
Reach-IsSorted_example =
    Reach-IsSorted ltb ltb-asymmetric ltb-chain two_of_four removed_list
      (record { capacity = refl; fits = omega arith; in_width = omega arith }) (refl, (tt, tt))
      (removed 0 inserted_list removed_list
        (inserted 6 two_of_four inserted_list start (omega arith) insert_four_run) (omega arith)
        (omega arith) remove_four_run)
