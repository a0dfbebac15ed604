-- ===== src/Heap/TilingFree.antt =====
-- `Free` in a heap of parts: the block and the holes beside it become one hole.
use loris.Base.{ℕ, ◌+◌, ◌≤◌, ◌<◌, ◌^◌, ◌≡◌, ◌≢◌, ◌⊎◌, arith, List, [], ◌∷◌, ◌++◌, Memory, ok}
use loris.OrderedList.Spec.{IsOrderedList}
use loris.Heap.Resize.{Pager, World}
use loris.Heap.Free.{free}
use loris.Heap.Blocks.{IsHeader}
use loris.Heap.Chunks.{IsChunk}
use loris.Heap.BestFit.{hole_at}
use loris.Heap.Merge.{LeftBusy, RightBusy, free_block}
use loris.Heap.Join.{free_join_right}
use loris.Heap.JoinLeft.{free_join_left}
use loris.Heap.JoinBoth.{free_join_both}
use loris.Heap.Tiling.{Part, block, hole, behind, IsTiled, IsTiled-split, IsTiled-replace}

-- The parts `old` become the part `p`.
IsTiled-merge :
    (m m' : Memory) (a b : ℕ) (ps old qs : List Part) (p : Part)
    → IsTiled m a (ps ++ (old ++ qs)) b
    → 20 ≤ p.bytes
    → behind (behind a ps) old ≡ behind a ps + p.bytes
    → IsHeader m' (behind a ps) p.flag p.bytes
    → ((x : ℕ) → (x < behind a ps) ⊎ (behind a ps + p.bytes ≤ x) → m' x ≡ m x)
    → IsTiled m' a (ps ++ p ∷ qs) b
unfolding IsTiled
IsTiled-merge m m' a b ps old qs p tiled large same_end header same =
    let (front, back) = IsTiled-split m a b ps (old ++ qs) tiled in
    let (middle, last) = IsTiled-split m (behind a ps) b old qs back in
    IsTiled-replace m m' a b (behind a ps) (behind (behind a ps) old) ps (p ∷ []) qs front last
      (large, header, omega arith) (λ x out. same x (omega arith))

module _ (pager : Pager) (w : World pager) (start : ℕ) (ps qs : List Part) (n : ℕ) where
  abbrev end_address : ℕ
  end_address = w.heap.end_address

  -- The address behind the parts `ps`.
  abbrev here : ℕ
  here = behind start ps

  -- In a heap that is a row of parts from an address to its end, freeing a block between two holes,
  -- the second first at place `i` of the well-formed index, which has a free slot, where the three
  -- have their footers and 20 bytes or more and end below 2 ^ 32 and not at the end of the heap,
  -- returns, and up to the same end the heap is a row of parts again: one hole of all three sizes
  -- stands for them, the others are as before.
  pub free_join_both-IsTiled :
      (k j i : ℕ)
      → IsTiled w.memory start (ps ++ hole k ∷ block n ∷ hole j ∷ qs) end_address
      → IsChunk w.memory here 1 k
      → IsChunk w.memory (here + k) 0 n
      → IsChunk w.memory (here + k + n) 1 j
      → 20 ≤ k
      → 20 ≤ n
      → 20 ≤ j
      → here + k + n + j < 2 ^ 32
      → here + k + n + j ≢ end_address
      → IsOrderedList w.heap.index
      → w.heap.index.size < w.heap.index.max_size
      → i < w.heap.index.size
      → hole_at w.heap.index i ≡ here + k + n
      → ((h : ℕ) → h < i → hole_at w.heap.index h ≢ here + k + n)
      → (w' : World pager) × (free pager (here + k + 12) w ≡ ok w')
        × IsTiled w'.memory start (ps ++ hole (k + n + j) ∷ qs) end_address
  unfolding behind
  free_join_both-IsTiled k j i tiled first block_chunk second lk ln lj word within wf room inside at
        least =
      let (w', run, header, footer, kept, wf', shown) =
        free_join_both pager w here k n j i first block_chunk second lk ln lj word within wf room
          inside at least in
      (
        w',
        run,
        IsTiled-merge w.memory w'.memory start end_address ps (hole k ∷ block n ∷ hole j ∷ []) qs
            (hole (k + n + j)) tiled (omega arith) (omega arith) header
            (λ x out. kept x (omega arith, omega arith, omega arith)),
      )

  -- The same for a block behind a hole and with no hole behind it.
  free_join_left-IsTiled :
      (k : ℕ)
      → IsTiled w.memory start (ps ++ hole k ∷ block n ∷ qs) end_address
      → IsChunk w.memory here 1 k
      → IsChunk w.memory (here + k) 0 n
      → 20 ≤ k
      → 20 ≤ n
      → here + k + n < 2 ^ 32
      → RightBusy w.memory (here + k + n)
      → here + k + n ≢ end_address
      → (w' : World pager) × (free pager (here + k + 12) w ≡ ok w')
        × IsTiled w'.memory start (ps ++ hole (k + n) ∷ qs) end_address
  unfolding behind
  free_join_left-IsTiled k tiled first block_chunk lk ln word right within =
      let (w', run, chunk, kept, members) =
        free_join_left pager w here k n first block_chunk lk ln word right within in
      (
        w',
        run,
        IsTiled-merge w.memory w'.memory start end_address ps (hole k ∷ block n ∷ []) qs
            (hole (k + n)) tiled (omega arith) (omega arith) chunk.header
            (λ x out. kept x (omega arith, omega arith, omega arith)),
      )

  -- The same for a block in front of a hole and with no hole in front of it.
  free_join_right-IsTiled :
      (k i : ℕ)
      → IsTiled w.memory start (ps ++ block n ∷ hole k ∷ qs) end_address
      → IsChunk w.memory here 0 n
      → IsChunk w.memory (here + n) 1 k
      → 20 ≤ n
      → 20 ≤ k
      → 8 ≤ here
      → here + n + k < 2 ^ 32
      → LeftBusy w.memory here
      → here + n + k ≢ end_address
      → IsOrderedList w.heap.index
      → w.heap.index.size < w.heap.index.max_size
      → i < w.heap.index.size
      → hole_at w.heap.index i ≡ here + n
      → ((j : ℕ) → j < i → hole_at w.heap.index j ≢ here + n)
      → (w' : World pager) × (free pager (here + 12) w ≡ ok w')
        × IsTiled w'.memory start (ps ++ hole (n + k) ∷ qs) end_address
  unfolding behind
  free_join_right-IsTiled k i tiled block_chunk second ln lk above word left within wf room inside
        at least =
      let (w', run, header, kept, footer, wf', shown) =
        free_join_right pager w here n k i block_chunk second ln lk above word left within wf room
          inside at least in
      (
        w',
        run,
        IsTiled-merge w.memory w'.memory start end_address ps (block n ∷ hole k ∷ []) qs
            (hole (n + k)) tiled (omega arith) (omega arith) header
            (λ x out. kept x (omega arith) (omega arith)),
      )

  -- The same for a block without a hole beside it.
  free_block-IsTiled :
      IsTiled w.memory start (ps ++ block n ∷ qs) end_address
      → IsChunk w.memory here 0 n
      → 20 ≤ n
      → 8 ≤ here
      → here + n < 2 ^ 32
      → LeftBusy w.memory here
      → RightBusy w.memory (here + n)
      → here + n ≢ end_address
      → IsOrderedList w.heap.index
      → w.heap.index.size < w.heap.index.max_size
      → (w' : World pager) × (free pager (here + 12) w ≡ ok w')
        × IsTiled w'.memory start (ps ++ hole n ∷ qs) end_address
  unfolding behind
  free_block-IsTiled tiled block_chunk ln above word left right within wf room =
      let (w', run, chunk, kept, wf', shown) =
        free_block pager w here n block_chunk ln above word left right within wf room in
      (
        w',
        run,
        IsTiled-merge w.memory w'.memory start end_address ps (block n ∷ []) qs (hole n) tiled
            (omega arith) (omega arith) chunk.header (λ x out. kept x (omega arith)),
      )
