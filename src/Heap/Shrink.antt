-- ===== src/Heap/Shrink.antt =====
-- The branch of `Free` for a hole at the end of the heap, which contracts the heap.
use loris.Base.{
  ℕ, zero, suc, ◌+◌, ◌<◌, ◌^◌, ◌≡◌, refl, ap, ◌≢◌, arith, false, add32, sub32, ltb, ◌==◌, ok,
  load_ok,
}
use loris.OrderedList.{OrderedList, get_item_at_index}
use loris.OrderedList.Spec.{IsOrderedList}
use loris.Heap.Layout.{size_of}
use loris.Heap.Index.{position_from}
use loris.Heap.Resize.{Pager, World, contract}
use loris.Heap.Free.{shrink}
use loris.Heap.BestFit.{hole_at}

position_from_missing :
    (index : OrderedList ℕ) (header left i : ℕ)
    → IsOrderedList index
    → i + left ≡ index.size
    → ((j : ℕ) → j < index.size → hole_at index j ≢ header)
    → position_from index header left i ≡ ok index.size
unfolding position_from get_item_at_index
position_from_missing index header zero i wf e missing = ap ok (omega arith)
position_from_missing index header (suc left) i wf e missing =
    let item = load_ok index.elements i 0 (omega (arith, wf.fits, wf.capacity)) in
    let other : (hole_at index i == header) ≡ false = ground (arith, missing i (omega arith)) in
    rw (item, other) (position_from_missing index header left (i + 1) wf (omega arith) missing)

-- The world after `Contract`.
abbrev pub contracted :
    (pager : Pager) (w : World pager) (new_length : ℕ) → pager.State → World pager
contracted pager w new_length p = record w {
  heap = record w.heap { end_address = add32 w.heap.start_address new_length };
  pages = p;
}

module _ (pager : Pager) (w : World pager) (pos n : ℕ) (p : pager.State) where
  abbrev length_below : ℕ
  length_below = sub32 pos w.heap.start_address

  -- Where the heap contracts to the beginning of the hole, nothing is looked up under its address.
  pub shrink_gone :
      contract pager length_below w ≡ ok (length_below, contracted pager w length_below p)
      → size_of w.memory pos ≡ n
      → w.heap.start_address < 2 ^ 32
      → pos + n ≡ w.heap.end_address
      → pos + n < 2 ^ 32
      → length_below + n < 2 ^ 32
      → IsOrderedList w.heap.index
      → ((j : ℕ) → j < w.heap.index.size → hole_at w.heap.index j ≢ pos + n)
      → shrink pager pos (pos + n) w ≡ ok (contracted pager w length_below p)
  unfolding shrink
  shrink_gone run size_is start ends word line wf missing =
      let left : sub32 n (sub32 (sub32 w.heap.end_address w.heap.start_address) length_below) ≡ 0 =
        omega arith in
      let searched =
        position_from_missing w.heap.index (pos + n) w.heap.index.size 0 wf (omega arith) missing in
      let absent : ltb w.heap.index.size w.heap.index.size ≡ false = ground arith in
      rw (run, size_is, left, searched, absent) refl
