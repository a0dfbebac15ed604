-- ===== src/Heap/Fit.antt =====
-- `Alloc` from a hole that fits, without alignment: the block, its header and footer, and what is
-- left of the hole.
use mathlib.Core.Path.{subst}
use loris.Base.{
  ℕ, suc, ◌+◌, ◌-◌, ◌≤◌, ◌<◌, ◌^◌, ◌≡◌, refl, sym, ap, ◌∙◌, ◌⊎◌, inl, inr, arith, true, false,
  Memory, ok, ◌>>=◌, add32, sub32, ltb, ◌==◌, if◌then◌else◌, load_ok,
}
use loris.OrderedList.{OrderedList, get_item_at_index, insert, remove}
use loris.OrderedList.Spec.{contents, IsOrderedList, insert_sorted, erase_at}
use loris.OrderedList.Insert.{insert-insert_sorted}
use loris.OrderedList.Remove.{remove-erase_at}
use loris.Heap.Layout.{size_of, put_header, put_footer}
use loris.Heap.Index.{not_found, header_less_than, find_smallest_hole}
use loris.Heap.Resize.{Pager, World}
use loris.Heap.Alloc.{write_block, take_hole, alloc}
use loris.Heap.Chunks.{IsChunk, chunk_memory, chunk_memory-IsChunk, chunk_outside, IsChunk-same}
use loris.Heap.BestFit.{hole_at}

module _ (pager : Pager) (pos size hole_size : ℕ) (index : OrderedList ℕ) (w : World pager)
    (fits : size + 20 ≤ hole_size) (word : pos + hole_size < 2 ^ 32) where
  -- The whole hole becomes the block.
  write_block_whole :
      hole_size ≡ size + 20
      → write_block pager pos size (size + 20) hole_size index w
        ≡ ok (
          pos + 12,
          record w {
            heap = record w.heap { index = index };
            memory = chunk_memory pos 0 (size + 20) w.memory;
          },
        )
  unfolding write_block
  write_block_whole whole =
      let data_address : add32 pos 12 ≡ pos + 12 = omega arith in
      let footer : add32 (pos + 12) size ≡ pos + (size + 20) - 8 = omega arith in
      let none_left : ltb 0 (sub32 hole_size (size + 20)) ≡ false = ground arith in
      rw (none_left, data_address, footer)

  -- The block is followed by a hole of what is left.
  pub write_block_split :
      size + 20 < hole_size
      → write_block pager pos size (size + 20) hole_size index w ≡ (
          let left = hole_size - (size + 20) in
          let hole = pos + (size + 20) in
          let m = put_header hole 1 left (chunk_memory pos 0 (size + 20) w.memory) in
          let m' =
            if ltb (hole + left - 8) w.heap.end_address
            then put_footer (hole + left - 8) hole m
            else m in
          (insert (header_less_than m') hole index >>= λ index'.
          ok (pos + 12, record w { heap = record w.heap { index = index' }; memory = m' })))
  unfolding write_block
  write_block_split part =
      let data_address : add32 pos 12 ≡ pos + 12 = omega arith in
      let footer : add32 (pos + 12) size ≡ pos + (size + 20) - 8 = omega arith in
      let left : sub32 hole_size (size + 20) ≡ hole_size - (size + 20) = omega arith in
      let hole : add32 (pos + (size + 20) - 8) 8 ≡ pos + (size + 20) = omega arith in
      let some_left : ltb 0 (hole_size - (size + 20)) ≡ true = ground arith in
      let hole_footer : sub32 (add32 (pos + (size + 20)) (hole_size - (size + 20))) 8
          ≡ pos + (size + 20) + (hole_size - (size + 20)) - 8 =
        omega arith in
      rw (left, some_left, data_address, footer, hole, hole_footer)

-- The heap around a hole that `FindSmallestHole` has found at place `r` of the index.
pub record FoundHole (pager : Pager) (w : World pager) (size r : ℕ) : Type 0 where
  pub index_wf : IsOrderedList w.heap.index
  pub slot : w.heap.index.size < w.heap.index.max_size
  pub in_use : r < w.heap.index.size
  pub found : find_smallest_hole (size + 20) false w.memory w.heap.index ≡ ok r
  pub large : size + 20 ≤ size_of w.memory (hole_at w.heap.index r)
  pub word : hole_at w.heap.index r + size_of w.memory (hole_at w.heap.index r) < 2 ^ 32

module _ (pager : Pager) (w : World pager) (size r fuel : ℕ)
    (there : FoundHole pager w size r) where
  abbrev pos : ℕ
  pos = hole_at w.heap.index r

  abbrev hole_size : ℕ
  hole_size = size_of w.memory pos

  alloc-take_hole : alloc pager (suc fuel) size false w ≡ take_hole pager r size (size + 20) false w
  unfolding alloc
  alloc-take_hole =
      let total : add32 size 20 ≡ size + 20 = omega (arith, there.large, there.word) in
      let real : (r == not_found) ≡ false =
        ground (arith, there.in_use, there.slot, there.index_wf.in_width) in
      rw (total, there.found, real)

  take_hole-write_block :
      (size' : ℕ) (index : OrderedList ℕ)
      → ((hole_size < size + 40) × (size' + 20 ≡ hole_size))
        ⊎ ((size + 40 ≤ hole_size) × (size' ≡ size))
      → remove r w.heap.index ≡ ok index
      → take_hole pager r size (size + 20) false w
        ≡ write_block pager pos size' (size' + 20) hole_size index w
  unfolding take_hole get_item_at_index
  take_hole-write_block size' index (inl (small, e)) removed =
      let item =
        load_ok w.heap.index.elements r 0
          (omega (arith, there.in_use, there.slot, there.index_wf.capacity)) in
      let test : ltb (sub32 hole_size (size + 20)) 20 ≡ true =
        ground (arith, there.large, there.word) in
      let data_size : add32 size (sub32 hole_size (size + 20)) ≡ size' =
        omega (arith, there.large, there.word) in
      rw (item, removed, test, data_size)
        (ap (λ (k : ℕ). write_block pager pos size' k hole_size index w) (sym e))
  take_hole-write_block size' index (inr (large, e)) removed =
      let item =
        load_ok w.heap.index.elements r 0
          (omega (arith, there.in_use, there.slot, there.index_wf.capacity)) in
      let test : ltb (sub32 hole_size (size + 20)) 20 ≡ false =
        ground (arith, there.large, there.word) in
      rw (item, removed, test)
        (ap (λ (k : ℕ). write_block pager pos k (k + 20) hole_size index w) (sym e))

  -- Where `FindSmallestHole` finds a hole with less than 20 bytes to spare, and the index has a
  -- free slot, `Alloc` without alignment turns it into the block as it is: it returns the address
  -- behind the header, the block has the hole's size with its header and footer written, no byte
  -- outside it changes, and exactly this hole has left the index.
  pub alloc_whole :
      hole_size < size + 40
      → (w' : World pager) × (alloc pager (suc fuel) size false w ≡ ok (pos + 12, w'))
        × IsChunk w'.memory pos 0 hole_size
        × ((x : ℕ) → (x < pos) ⊎ (pos + hole_size ≤ x) → w'.memory x ≡ w.memory x)
        × IsOrderedList w'.heap.index
        × (contents w'.heap.index ≡ erase_at r (contents w.heap.index))
  alloc_whole small =
      let (index, removed, wf, count, cap, rest) =
        remove-erase_at r w.heap.index there.index_wf there.in_use there.slot in
      let e : hole_size - 20 + 20 ≡ hole_size = omega (arith, there.large) in
      let block = chunk_memory pos 0 (hole_size - 20 + 20) w.memory in
      (
        record w { heap = record w.heap { index = index }; memory = block },
        alloc-take_hole
            ∙ take_hole-write_block (hole_size - 20) index (inl (small, e)) removed
            ∙ write_block_whole pager pos (hole_size - 20) hole_size index w
                (omega (arith, there.large)) there.word (sym e),
        subst (λ (n : ℕ). IsChunk block pos 0 n) e
            (chunk_memory-IsChunk w.memory pos 0 (hole_size - 20 + 20) (omega arith)
              (omega (arith, there.word))),
        λ x out.
            chunk_outside w.memory pos 0 (hole_size - 20 + 20) (omega arith)
              (omega (arith, there.word)) x (omega arith),
        wf,
        rest,
      )

  -- What the split writes.
  abbrev split_hole : ℕ
  split_hole = pos + (size + 20)

  abbrev split_left : ℕ
  split_left = hole_size - (size + 20)

  abbrev split_header : Memory
  split_header = put_header split_hole 1 split_left (chunk_memory pos 0 (size + 20) w.memory)

  abbrev split_memory : Memory
  split_memory = put_footer (split_hole + split_left - 8) split_hole split_header

  insert-split_hole :
      size + 40 ≤ hole_size
      → pos + hole_size ≤ w.heap.end_address
      → (index index' : OrderedList ℕ)
      → insert (header_less_than split_memory) split_hole index ≡ ok index'
      → (let m' =
            if ltb (split_hole + split_left - 8) w.heap.end_address
            then split_memory
            else split_header in
          ◌>>=◌ {B = ℕ × World pager}
            (insert (header_less_than m') split_hole index)
            (λ i. ok (pos + 12, record w { heap = record w.heap { index = i }; memory = m' })))
        ≡ ok (pos + 12, record w { heap = record w.heap { index = index' }; memory = split_memory })
  insert-split_hole large inside index index' inserted =
      let written : ltb (split_hole + split_left - 8) w.heap.end_address ≡ true = ground arith in
      rw (written, inserted)

  -- Where `FindSmallestHole` finds a hole with 20 bytes or more to spare that ends inside the
  -- heap, and the index has a free slot, `Alloc` without alignment splits it: it returns the
  -- address behind the header of a block of exactly the wanted size, the rest of the hole is a
  -- hole again, both with header and footer, no byte outside the old hole changes, the end of the
  -- heap stays, and in the index the new hole stands for the old one, in order, so that its size and
  -- capacity stay too.
  pub alloc_split :
      size + 40 ≤ hole_size
      → pos + hole_size ≤ w.heap.end_address
      → (w' : World pager) × (alloc pager (suc fuel) size false w ≡ ok (pos + 12, w'))
        × IsChunk w'.memory pos 0 (size + 20)
        × IsChunk w'.memory (pos + (size + 20)) 1 (hole_size - (size + 20))
        × ((x : ℕ) → (x < pos) ⊎ (pos + hole_size ≤ x) → w'.memory x ≡ w.memory x)
        × IsOrderedList w'.heap.index
        × (contents w'.heap.index
            ≡ insert_sorted
                (header_less_than w'.memory)
                (pos + (size + 20))
                (erase_at r (contents w.heap.index)))
        × (w'.heap.index.size ≡ w.heap.index.size)
        × (w'.heap.index.max_size ≡ w.heap.index.max_size)
        × (w'.heap.end_address ≡ w.heap.end_address)
  alloc_split large inside =
      let (index, removed, wf, count, cap, rest) =
        remove-erase_at r w.heap.index there.index_wf there.in_use there.slot in
      let left = hole_size - (size + 20) in
      let hole = pos + (size + 20) in
      let block = chunk_memory pos 0 (size + 20) w.memory in
      let memory = chunk_memory hole 1 left block in
      let (index', inserted, wf', count', most, shown) =
        insert-insert_sorted (header_less_than memory) hole index wf
          (omega (arith, count, cap, there.slot)) in
      (
        record w { heap = record w.heap { index = index' }; memory = memory },
        alloc-take_hole
            ∙ take_hole-write_block size index (inr (large, refl)) removed
            ∙ write_block_split pager pos size hole_size index w (omega arith) there.word
                (omega arith)
            ∙ insert-split_hole large inside index index' inserted,
        IsChunk-same block memory pos 0 (size + 20) (omega arith)
            (λ x p q.
              chunk_outside block hole 1 left (omega arith) (omega (arith, there.word)) x
                (omega arith))
            (chunk_memory-IsChunk w.memory pos 0 (size + 20) (omega arith)
              (omega (arith, there.word))),
        chunk_memory-IsChunk block hole 1 left (omega arith) (omega (arith, there.word)),
        λ x out.
            chunk_outside block hole 1 left (omega arith) (omega (arith, there.word)) x
              (omega arith)
            ∙ chunk_outside w.memory pos 0 (size + 20) (omega arith) (omega (arith, there.word)) x
                (omega arith),
        wf',
        shown ∙ ap (insert_sorted (header_less_than memory) hole) rest,
        count' ∙ omega (arith, count),
        most ∙ cap,
        refl,
      )
