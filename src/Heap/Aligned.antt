-- ===== src/Heap/Aligned.antt =====
-- `Alloc` of a page-aligned block from a hole that does not begin in the first page.
use loris.Base.{
  ℕ, suc, ◌+◌, ◌-◌, ◌*◌, ◌/◌, ◌%◌, ◌≤◌, ◌<◌, ◌^◌, ◌≡◌, refl, ap, ◌∙◌, ◌⊎◌, arith, true, false,
  bit_and, bit_and_mask, bit_and_shift, Memory, ok, add32, sub32, ltb, ◌==◌, load_ok,
}
use loris.OrderedList.{OrderedList, get_item_at_index, insert}
use loris.OrderedList.Spec.{contents, IsOrderedList, insert_sorted}
use loris.OrderedList.Insert.{insert-insert_sorted}
use loris.Heap.Layout.{size_of}
use loris.Heap.Index.{not_found, header_less_than, find_smallest_hole}
use loris.Heap.Resize.{Pager, World}
use loris.Heap.Alloc.{write_block, take_hole, alloc}
use loris.Heap.Chunks.{IsChunk, chunk_memory, chunk_memory-IsChunk, chunk_outside, IsChunk-same}
use loris.Heap.BestFit.{hole_at}
use loris.Heap.Fit.{write_block_split}

-- The bytes from `pos` to the header of a block whose data begins with the next page.
abbrev pub front_of : ℕ → ℕ
front_of pos = 4096 - pos % 4096 - 12

-- The heap around a hole that `FindSmallestHole` has found for an aligned block. The part in front of
-- the block is large enough for a header and a footer.
pub record FoundAligned (pager : Pager) (w : World pager) (size r : ℕ) : Type 0 where
  pub index_wf : IsOrderedList w.heap.index
  pub slot : w.heap.index.size < w.heap.index.max_size
  pub in_use : r < w.heap.index.size
  pub found : find_smallest_hole (size + 20) true w.memory w.heap.index ≡ ok r
  pub above : 4096 ≤ hole_at w.heap.index r
  pub front_fits : 20 ≤ front_of (hole_at w.heap.index r)
  pub large : size + 40 ≤ size_of w.memory (hole_at w.heap.index r)
  pub word :
      hole_at w.heap.index r + size_of w.memory (hole_at w.heap.index r) + 4096 + size < 2 ^ 32

module _ (pager : Pager) (w : World pager) (size r fuel : ℕ)
    (there : FoundAligned pager w size r) where
  abbrev pos : ℕ
  pos = hole_at w.heap.index r

  abbrev hole_size : ℕ
  hole_size = size_of w.memory pos

  abbrev front : ℕ
  front = front_of pos

  abbrev front_memory : Memory
  front_memory = chunk_memory pos 1 front w.memory

  front_size : size_of front_memory pos ≡ front
  front_size =
      (chunk_memory-IsChunk w.memory pos 1 front there.front_fits
        (omega (arith, there.word))).header.size_is

  -- The hole stays in the index, with the bytes in front of the block.
  pub alloc-write_block :
      alloc pager (suc fuel) size true w
      ≡ write_block pager
          (pos + front)
          size
          (size + 20)
          (sub32 hole_size front)
          w.heap.index
          (record w { memory = front_memory })
  unfolding alloc take_hole get_item_at_index
  alloc-write_block =
      let total : add32 size 20 ≡ size + 20 = omega (arith, there.large, there.word) in
      let real : (r == not_found) ≡ false =
        ground (arith, there.in_use, there.slot, there.index_wf.in_width) in
      let item =
        load_ok w.heap.index.elements r 0
          (omega (arith, there.in_use, there.slot, there.index_wf.capacity)) in
      let split : ltb (sub32 hole_size (size + 20)) 20 ≡ false =
        ground (arith, there.large, there.word) in
      let low : bit_and pos 0xFFF ≡ pos % 4096 = bit_and_mask 12 pos in
      let high : bit_and pos 0xFFFFF000 ≡ pos / 4096 * 4096 =
        omega (arith, bit_and_shift 12 pos 0xFFFFF, bit_and_mask 20 (pos / 2 ^ 12), there.word) in
      let aligns : (pos / 4096 * 4096 == 0) ≡ false = ground (arith, there.above) in
      let location : sub32 (add32 pos (4096 - pos % 4096)) 12 ≡ pos + front =
        omega (arith, there.word, there.front_fits) in
      let footer : sub32 (pos + front) 8 ≡ pos + front - 8 =
        omega (arith, there.word, there.front_fits) in
      let left_over : sub32 (4096 - pos % 4096) 12 ≡ front = omega (arith, there.front_fits) in
      rw
        (
          total, there.found, real, item, split, low, high, aligns, location, footer, left_over,
          front_size,
        )
        refl

  -- What is written behind the part in front.
  abbrev block_at : ℕ
  block_at = pos + front

  abbrev rest_at : ℕ
  rest_at = block_at + (size + 20)

  abbrev rest_size : ℕ
  rest_size = hole_size - front - (size + 20)

  abbrev block_memory : Memory
  block_memory = chunk_memory block_at 0 (size + 20) front_memory

  abbrev aligned_memory : Memory
  aligned_memory = chunk_memory rest_at 1 rest_size block_memory

  alloc_aligned_run :
      front + size + 40 ≤ hole_size
      → pos + hole_size ≤ w.heap.end_address
      → (index' : OrderedList ℕ)
      → insert (header_less_than aligned_memory) rest_at w.heap.index ≡ ok index'
      → alloc pager (suc fuel) size true w
        ≡ ok (
          block_at + 12,
          record w { heap = record w.heap { index = index' }; memory = aligned_memory },
        )
  alloc_aligned_run fits inside index' inserted =
      let n : sub32 hole_size front ≡ hole_size - front = omega (arith, there.word) in
      let written : ltb (rest_at + rest_size - 8) w.heap.end_address ≡ true =
        ground (arith, there.front_fits) in
      alloc-write_block
      ∙ ap
          (λ (k : ℕ).
            write_block pager block_at size (size + 20) k w.heap.index
              (record w { memory = front_memory }))
          n
      ∙ write_block_split pager block_at size (hole_size - front) w.heap.index
          (record w { memory = front_memory }) (omega arith) (omega (arith, there.word))
          (omega arith)
      ∙ rw (written, inserted) refl

  -- Where the well-formed index has a free slot, and `FindSmallestHole` finds a hole above the first page,
  -- 20 bytes or more in front of the block's header, in which the block fits behind the next page boundary with 20
  -- bytes or more to spare, and which ends inside the heap, `Alloc` with alignment returns that
  -- boundary: in front of the block's header stays a hole, the block has the wanted size, the rest is
  -- a hole again, all three with header and footer; no byte outside the old hole changes, and the index
  -- gets the rest in addition.
  pub alloc_aligned :
      front + size + 40 ≤ hole_size
      → pos + hole_size ≤ w.heap.end_address
      → (w' : World pager) × (alloc pager (suc fuel) size true w ≡ ok ((pos / 4096 + 1) * 4096, w'))
        × IsChunk w'.memory pos 1 front
        × IsChunk w'.memory (pos + front) 0 (size + 20)
        × IsChunk w'.memory (pos + front + (size + 20)) 1 (hole_size - front - (size + 20))
        × ((x : ℕ) → (x < pos) ⊎ (pos + hole_size ≤ x) → w'.memory x ≡ w.memory x)
        × IsOrderedList w'.heap.index
        × (contents w'.heap.index
            ≡ insert_sorted
                (header_less_than w'.memory)
                (pos + front + (size + 20))
                (contents w.heap.index))
  alloc_aligned fits inside =
      let boundary : block_at + 12 ≡ (pos / 4096 + 1) * 4096 = omega (arith, there.front_fits) in
      let (index', inserted, wf', count, most, shown) =
        insert-insert_sorted (header_less_than aligned_memory) rest_at w.heap.index there.index_wf
          there.slot in
      let w' : World pager = record w {
        heap = record w.heap { index = index' };
        memory = aligned_memory;
      } in
      (
        w',
        alloc_aligned_run fits inside index' inserted ∙ ap (λ (a : ℕ). ok (a, w')) boundary,
        IsChunk-same block_memory aligned_memory pos 1 front there.front_fits
            (λ x p q.
              chunk_outside block_memory rest_at 1 rest_size (omega arith)
                (omega (arith, there.word)) x (omega arith))
            (IsChunk-same front_memory block_memory pos 1 front there.front_fits
              (λ x p q.
                chunk_outside front_memory block_at 0 (size + 20) (omega arith)
                  (omega (arith, there.word)) x (omega arith))
              (chunk_memory-IsChunk w.memory pos 1 front there.front_fits
                (omega (arith, there.word)))),
        IsChunk-same block_memory aligned_memory block_at 0 (size + 20) (omega arith)
            (λ x p q.
              chunk_outside block_memory rest_at 1 rest_size (omega arith)
                (omega (arith, there.word)) x (omega arith))
            (chunk_memory-IsChunk front_memory block_at 0 (size + 20) (omega arith)
              (omega (arith, there.word))),
        chunk_memory-IsChunk block_memory rest_at 1 rest_size (omega arith)
            (omega (arith, there.word)),
        λ x out.
            chunk_outside block_memory rest_at 1 rest_size (omega arith) (omega (arith, there.word))
              x (omega (arith, there.front_fits))
            ∙ chunk_outside front_memory block_at 0 (size + 20) (omega arith)
                (omega (arith, there.word)) x (omega (arith, there.front_fits))
            ∙ chunk_outside w.memory pos 1 front there.front_fits (omega (arith, there.word)) x
                (omega arith),
        wf',
        shown,
      )
