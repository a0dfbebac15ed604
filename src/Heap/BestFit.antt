-- ===== src/Heap/BestFit.antt =====
-- The index is kept by size, and `FindSmallestHole` takes the smallest hole that is large enough.
use native.Mathlib.Decide.{ℕ_discrete, dec_lt}
use mathlib.Core.Path.{sym, subst}
use loris.Base.{
  ℕ, zero, suc, ◌+◌, ◌≤◌, ◌<◌, ◌≡◌, refl, ◌⊎◌, inl, inr, arith, Bool, true, false, List, [], ◌∷◌,
  Memory, length, get_or, take, ok, load_ok, Bool-cases,
}
use loris.OrderedList.{OrderedList, get_item_at_index}
use loris.OrderedList.Spec.{contents, IsOrderedList, IsSorted}
use loris.Heap.Layout.{size_of}
use loris.Heap.Index.{not_found, header_less_than, hole_fits, find_hole_from, find_smallest_hole}

-- The header at place `i` of the index.
abbrev pub hole_at : OrderedList ℕ → ℕ → ℕ
hole_at index i = get_or index.elements i 0

module _ (size : ℕ) (page_align : Bool) (m : Memory) (index : OrderedList ℕ)
    (wf : IsOrderedList index) where
  abbrev Fits : ℕ → Type 0
  Fits i = hole_fits size page_align m (hole_at index i) ≡ true

  abbrev TooSmall : ℕ → Type 0
  TooSmall i = hole_fits size page_align m (hole_at index i) ≡ false

  find_cases :
      (left i : ℕ)
      → i + left ≡ index.size
      → ((find_hole_from size page_align m index left i ≡ ok not_found)
          × ((j : ℕ) → i ≤ j → j < index.size → TooSmall j))
        ⊎ ((r : ℕ) × (find_hole_from size page_align m index left i ≡ ok r)
            × (r < index.size)
            × Fits r
            × ((j : ℕ) → i ≤ j → j < r → TooSmall j))
  unfolding find_hole_from get_item_at_index
  find_cases zero i e = inl (refl, λ j p q. absurd (omega arith))
  find_cases (suc left) i e =
      let there = load_ok index.elements i 0 (omega (arith, wf.fits, wf.capacity)) in
      elim (Bool-cases (hole_fits size page_align m (hole_at index i))) [
        | inl fit ↦ inr (i, rw (there, fit), omega arith, fit, λ j p q. absurd (omega arith))
        | inr small ↦ elim (find_cases left (i + 1) (omega arith)) [
          | inl (run, all) ↦ inl (rw (there, small) run, λ j p q. step j p small (all j) q)
          | inr (r, run, lt, fit, all) ↦
              inr (r, rw (there, small) run, lt, fit, λ j p q. step j p small (all j) q)
        ]
      ]
    where
      step :
          (j : ℕ) {hi : ℕ}
          → i ≤ j
          → TooSmall i
          → (i + 1 ≤ j → j < hi → TooSmall j)
          → j < hi
          → TooSmall j
      step j p small later q = elim (ℕ_discrete j i) [
        | yes at ↦ subst TooSmall (sym at) small
        | no ne ↦ later (omega arith) q
      ]

  -- On a well-formed index `FindSmallestHole` returns the first place whose hole fits, or -1 where
  -- no hole of the index fits.
  pub find_smallest_hole_first :
      ((find_smallest_hole size page_align m index ≡ ok not_found)
        × ((j : ℕ) → j < index.size → TooSmall j))
      ⊎ ((r : ℕ) × (find_smallest_hole size page_align m index ≡ ok r)
          × (r < index.size)
          × Fits r
          × ((j : ℕ) → j < r → TooSmall j))
  unfolding find_smallest_hole
  find_smallest_hole_first = elim (find_cases index.size 0 (omega arith)) [
    | inl (run, all) ↦ inl (run, λ j p. all j (omega arith) p)
    | inr (r, run, lt, fit, all) ↦ inr (r, run, lt, fit, λ j p. all j (omega arith) p)
  ]

-- In an index in order, sizes grow with the places.
sizes_grow :
    (m : Memory) (es : List ℕ) (n i j : ℕ)
    → IsSorted (header_less_than m) (take n es)
    → i ≤ j
    → j < n
    → n ≤ length es
    → size_of m (get_or es i 0) ≤ size_of m (get_or es j 0)
unfolding header_less_than
sizes_grow m [] n i j s le lt room = absurd (omega arith)
sizes_grow m (x ∷ es) zero i j s le lt room = elim lt [ ]
sizes_grow m (x ∷ es) (suc n) zero zero s le lt room = omega arith
sizes_grow m (x ∷ []) (suc n) zero (suc j) s le lt room = absurd (omega arith)
sizes_grow m (x ∷ y ∷ es) (suc zero) zero (suc j) s le lt room = absurd (omega arith)
sizes_grow m (x ∷ y ∷ es) (suc (suc n)) zero (suc j) (a, s) le lt room =
    let rest = sizes_grow m (y ∷ es) (suc n) zero j s (omega arith) (omega arith) (omega arith) in
    ground arith
sizes_grow m (x ∷ es) (suc n) (suc i) zero s le lt room = absurd (omega arith)
sizes_grow m (x ∷ es) (suc n) (suc i) (suc j) (a, s) le lt room =
    sizes_grow m es n i j s (omega arith) (omega arith) (omega arith)

-- On an index in order, without alignment, `FindSmallestHole` returns a smallest hole among those
-- of at least the wanted size, or -1 where the index has none.
pub find_smallest_hole_best :
    (size : ℕ) (m : Memory) (index : OrderedList ℕ)
    → IsOrderedList index
    → IsSorted (header_less_than m) (contents index)
    → ((find_smallest_hole size false m index ≡ ok not_found)
        × ((j : ℕ) → j < index.size → size_of m (hole_at index j) < size))
      ⊎ ((r : ℕ) × (find_smallest_hole size false m index ≡ ok r)
          × (r < index.size)
          × (size ≤ size_of m (hole_at index r))
          × ((j : ℕ)
              → j < index.size
              → size ≤ size_of m (hole_at index j)
              → size_of m (hole_at index r) ≤ size_of m (hole_at index j)))
unfolding hole_fits
find_smallest_hole_best size m index wf sorted =
    elim (find_smallest_hole_first size false m index wf) [
      | inl (run, all) ↦ inl (run, λ j p. ground (arith, all j))
      | inr (r, run, lt, fit, all) ↦ inr (
        r,
        run,
        lt,
        ground arith,
        λ j p big. elim (dec_lt j r) [
          | yes before ↦ absurd (ground (arith, all j))
          | no behind ↦
              sizes_grow m index.elements index.size r j sorted (omega arith) p
                (omega (arith, wf.fits, wf.capacity))
        ],
      )
    ]

-- The order of the index is asymmetric, so `Insert` keeps it.
pub header_less_than_asymmetric :
    (m : Memory) (a b : ℕ) → header_less_than m a b ≡ true → header_less_than m b a ≡ false
unfolding header_less_than
header_less_than_asymmetric m a b h = ground arith
