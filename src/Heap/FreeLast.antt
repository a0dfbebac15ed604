-- ===== src/Heap/FreeLast.antt =====
-- `Free` of the last block of the heap, behind which the heap contracts.
use loris.Base.{
  ℕ, ◌+◌, ◌-◌, ◌/◌, ◌%◌, ◌≤◌, ◌<◌, ◌^◌, ◌≡◌, refl, ◌∙◌, ◌≢◌, arith, true, add32, sub32, ◌==◌, ok,
}
use loris.OrderedList.{OrderedList, insert}
use loris.OrderedList.Spec.{contents, IsOrderedList, insert_sorted}
use loris.OrderedList.Insert.{insert-insert_sorted}
use loris.Heap.Layout.{heap_min_size, set_is_hole}
use loris.Heap.Index.{header_less_than}
use loris.Heap.Resize.{Pager, World, contract_size, contract}
use loris.Heap.Sizes.{unmap_pages, contract-unmap_pages, contract_size_lem}
use loris.Heap.Free.{shrink, free_rest, free}
use loris.Heap.Blocks.{IsHeader}
use loris.Heap.Chunks.{IsChunk}
use loris.Heap.BestFit.{hole_at}
use loris.Heap.Merge.{LeftBusy, RightBusy, marked-IsHeader, free-free_rest, unify_right_busy}
use loris.Heap.Shrink.{contracted, shrink_gone}

-- The last block of the heap, of `n` bytes at `pos`, which can be freed without a join.
pub record IsLast (pager : Pager) (w : World pager) (pos n : ℕ) : Type 0 where
  pub block : IsChunk w.memory pos 0 n
  pub large : 20 ≤ n
  pub above : 8 ≤ pos
  pub start_fits : w.heap.start_address < 2 ^ 32
  pub in_line : sub32 pos w.heap.start_address + n < 2 ^ 32
  pub ends : pos + n ≡ w.heap.end_address
  pub word : w.heap.end_address < 2 ^ 32
  pub left_busy : LeftBusy w.memory pos
  pub right_busy : RightBusy w.memory (pos + n)
  pub index_wf : IsOrderedList w.heap.index
  pub slot : w.heap.index.size < w.heap.index.max_size

module _ (pager : Pager) (w : World pager) (pos n : ℕ) (last : IsLast pager w pos n) where
  abbrev pub length_below : ℕ
  length_below = sub32 pos w.heap.start_address

  abbrev freed_world : World pager
  freed_world = record w { memory = set_is_hole pos 1 w.memory }

  free-shrink :
      (w₁ : World pager) (index' : OrderedList ℕ)
      → shrink pager pos (pos + n) freed_world ≡ ok w₁
      → insert (header_less_than w₁.memory) pos w₁.heap.index ≡ ok index'
      → free pager (pos + 12) w ≡ ok (record w₁ { heap = record w₁.heap { index = index' } })
  unfolding free_rest
  free-shrink w₁ index' shrunk inserted =
      let word : pos + n < 2 ^ 32 = omega (arith, last.ends, last.word) in
      let behind : add32 (pos + n - 8) 8 ≡ pos + n = omega (arith, last.above, word) in
      let at_end : (pos + n == w.heap.end_address) ≡ true = ground (arith, last.ends) in
      free-free_rest w.memory pos n last.block.header last.large last.above word pager w refl
        last.left_busy
      ∙ rw
          (
            unify_right_busy w.memory pos n last.block.header last.large last.above word
                w.heap.index last.right_busy,
            behind,
            at_end,
            shrunk,
            inserted,
          )
          refl

  -- Where the last block of the heap, of 20 bytes or more with header and footer, has no hole
  -- beside it and begins, with wrap-around, at or above the minimum size behind the start of the
  -- heap, at an offset that has bit 12 clear and from which the block does not reach round 2 ^ 32,
  -- the heap ends below 2 ^ 32, the well-formed index has a free slot and no hole at the end of the
  -- heap, and the paging code unmaps the pages behind the block: freeing the block moves the end of
  -- the heap to where it began. But the hole goes into the index all the same, a header at that
  -- end, which the memory still has.
  pub free_last_dangling :
      (p : pager.State)
      → heap_min_size ≤ length_below
      → length_below / 4096 % 2 ≡ 0
      → ((j : ℕ) → j < w.heap.index.size → hole_at w.heap.index j ≢ pos + n)
      → let top = sub32 (sub32 w.heap.end_address w.heap.start_address) 4096 in
        unmap_pages pager ((top - length_below + 4095) / 4096) top w.heap w.pages ≡ ok p
        → (w' : World pager) × (free pager (pos + 12) w ≡ ok w')
          × (w'.heap.end_address ≡ pos)
          × (w'.pages ≡ p)
          × IsHeader w'.memory pos 1 n
          × (contents w'.heap.index
              ≡ insert_sorted (header_less_than w'.memory) pos (contents w.heap.index))
  free_last_dangling p long even missing unmapped =
      let top = sub32 (sub32 w.heap.end_address w.heap.start_address) 4096 in
      let c : contract_size length_below ≡ length_below =
        ground (arith, contract_size_lem length_below) in
      let run : contract pager length_below freed_world
          ≡ ok (length_below, contracted pager freed_world length_below p) =
        contract-unmap_pages pager length_below freed_world ∙ rw (c, unmapped) refl in
      let word : pos + n < 2 ^ 32 = omega (arith, last.ends, last.word) in
      let header = marked-IsHeader w.memory pos n last.block.header last.large last.above word in
      let w₁ = contracted pager freed_world length_below p in
      let (index', inserted, wf, count, most, shown) =
        insert-insert_sorted (header_less_than freed_world.memory) pos w.heap.index last.index_wf
          last.slot in
      (
        record w₁ { heap = record w₁.heap { index = index' } },
        free-shrink w₁ index'
            (shrink_gone pager freed_world pos n p run header.size_is last.start_fits last.ends word
              last.in_line last.index_wf missing)
            inserted,
        omega (arith, last.start_fits, word),
        refl,
        header,
        shown,
      )
