-- ===== src/Heap/GrowAlloc.antt =====
-- `Alloc` in a heap whose holes are all taken: what it returns behind its recursive call.
use mathlib.Core.Path.{subst}
use native.Mathlib.Decide.{dec_lt}
use loris.Base.{
  ℕ, suc, ◌+◌, ◌≤◌, ◌<◌, ◌^◌, ◌≡◌, refl, sym, ap, ◌∙◌, arith, true, false, Memory, ok, add32, leb,
  load_ok, List, [], ◌∷◌, get_or,
}
use loris.OrderedList.{OrderedList, get_item_at_index}
use loris.OrderedList.Spec.{contents, IsOrderedList}
use loris.OrderedList.Places.{get_or-take}
use loris.Heap.Layout.{size_of}
use loris.Heap.Index.{not_found, hole_fits, find_hole_from, find_smallest_hole}
use loris.Heap.Resize.{Pager, World}
use loris.Heap.Alloc.{grow, alloc}
use loris.Heap.Chunks.{IsChunk, chunk_memory, chunk_memory-IsChunk, chunk_outside}
use loris.Heap.BestFit.{hole_at}
use loris.Heap.Fit.{FoundHole, alloc_whole, alloc_split}
use loris.Heap.Grow.{CanGrow, grown_by, grown_by_bounds, longer, grow_empty}

-- The one hole of an index, found where it is large enough.
pub only_hole_at :
    (index : OrderedList ℕ) (h : ℕ)
    → IsOrderedList index
    → index.size ≡ 1
    → contents index ≡ h ∷ []
    → hole_at index 0 ≡ h
only_hole_at index h wf one shown =
    sym
      (get_or-take index.size 0 index.elements (omega arith) (omega (arith, wf.fits, wf.capacity)))
    ∙ ap (λ (xs : List ℕ). get_or xs 0 0) shown

only_hole_found :
    (size : ℕ) (m : Memory) (index : OrderedList ℕ)
    → IsOrderedList index
    → index.size ≡ 1
    → size ≤ size_of m (hole_at index 0)
    → find_smallest_hole size false m index ≡ ok 0
unfolding find_smallest_hole find_hole_from get_item_at_index hole_fits
only_hole_found size m index wf one large =
    let item = load_ok index.elements 0 0 (omega (arith, one, wf.fits, wf.capacity)) in
    let fits : leb size (size_of m (hole_at index 0)) ≡ true = ground (arith, large) in
    ap (λ (k : ℕ). find_hole_from size false m index k 0) one ∙ rw (item, fits) refl

alloc-again :
    (pager : Pager) (fuel size : ℕ) (w w' : World pager)
    → size + 20 < 2 ^ 32
    → w.heap.index.size ≡ 0
    → grow pager (size + 20) w ≡ ok w'
    → alloc pager (suc fuel) size false w ≡ alloc pager fuel size false w'
unfolding alloc find_smallest_hole find_hole_from
alloc-again pager fuel size w w' word none grown =
    let total : add32 size 20 ≡ size + 20 = omega arith in
    let not_there : find_hole_from (size + 20) false w.memory w.heap.index w.heap.index.size 0
        ≡ ok not_found =
      ap (λ (k : ℕ). find_hole_from (size + 20) false w.memory w.heap.index k 0) none in
    rw (total, not_there, grown) refl

-- Where the well-formed index is empty with two free slots, the end of the heap and its length, the
-- wrapped difference of end and start, stay below 0xFFFFE000 with the wanted size added, and the
-- paging code maps the pages that `Expand` asks it for, `Alloc` without alignment returns with one
-- recursive call: the block begins at the old end of the heap, has at least the wanted size, with
-- its header and footer, and no byte below it changes.
pub alloc_grows :
    (pager : Pager) (fuel size : ℕ) (w : World pager)
    → CanGrow pager w (size + 20)
    → IsOrderedList w.heap.index
    → w.heap.index.size ≡ 0
    → 1 < w.heap.index.max_size
    → (w' : World pager) × (b : ℕ) × (alloc pager (suc (suc fuel)) size false w
        ≡ ok (w.heap.end_address + 12, w'))
      × (size + 20 ≤ b)
      × IsChunk w'.memory w.heap.end_address 0 b
      × ((x : ℕ) → x < w.heap.end_address → w'.memory x ≡ w.memory x)
alloc_grows pager fuel size w can wf none slots =
    let (index', grown, wf', one, most, shown) =
      grow_empty pager w (size + 20) can wf none (omega arith) (omega arith) in
    let (low, high) = grown_by_bounds pager w (size + 20) can in
    let old_end = w.heap.end_address in
    let m = chunk_memory old_end 1 (grown_by pager w (size + 20)) w.memory in
    let w₁ = longer pager w (size + 20) can.pages in
    let w' : World pager = record w₁ { heap = record w₁.heap { index = index' }; memory = m } in
    let at : hole_at index' 0 ≡ old_end = only_hole_at index' old_end wf' one shown in
    let hole_size : size_of m (hole_at index' 0) ≡ grown_by pager w (size + 20) =
      ap (size_of m) at
      ∙ (chunk_memory-IsChunk w.memory old_end 1 (grown_by pager w (size + 20)) (omega arith)
          (omega (arith, can.room))).header.size_is in
    let there : FoundHole pager w' size 0 = record {
      index_wf = wf';
      slot = omega arith;
      in_use = omega arith;
      found = only_hole_found (size + 20) m index' wf' one (omega arith);
      large = omega arith;
      word = omega (arith, can.room);
    } in
    let below : (x : ℕ) → x < old_end → m x ≡ w.memory x = λ x lt.
      chunk_outside w.memory old_end 1 (grown_by pager w (size + 20)) (omega arith)
        (omega (arith, can.room)) x (omega arith) in
    let run = alloc-again pager (suc fuel) size w w' (omega (arith, can.room)) none grown in
    elim (dec_lt (size_of m (hole_at index' 0)) (size + 40)) [
      | yes small ↦
          let (w₂, run₂, block, rest, wf₂, shown₂) = alloc_whole pager w' size 0 fuel there small in
          (
            w₂,
            size_of m (hole_at index' 0),
            run ∙ run₂ ∙ ap (λ (a : ℕ). ok (a + 12, w₂)) at,
            omega arith,
            subst (λ (a : ℕ). IsChunk w₂.memory a 0 (size_of m (hole_at index' 0))) at block,
            λ x lt. rest x (omega arith) ∙ below x lt,
          )
      | no large ↦
          let (w₂, run₂, block, hole, rest, wf₂, shown₂, count₂, most₂, end₂) =
            alloc_split pager w' size 0 fuel there (omega arith) (omega arith) in
          (
            w₂,
            size + 20,
            run ∙ run₂ ∙ ap (λ (a : ℕ). ok (a + 12, w₂)) at,
            omega arith,
            subst (λ (a : ℕ). IsChunk w₂.memory a 0 (size + 20)) at block,
            λ x lt. rest x (omega arith) ∙ below x lt,
          )
    ]
