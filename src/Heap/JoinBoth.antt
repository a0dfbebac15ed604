-- ===== src/Heap/JoinBoth.antt =====
-- `Free` of a block between two holes.
use loris.Base.{
  ℕ, ◌+◌, ◌-◌, ◌≤◌, ◌<◌, ◌^◌, ◌≡◌, refl, ◌∙◌, ◌≢◌, arith, Memory, write32_outside,
  read32-write32_self, read32-write32_ne, ok,
}
use loris.OrderedList.Spec.{contents, IsOrderedList, erase_at}
use loris.OrderedList.Remove.{remove-erase_at}
use loris.Heap.Layout.{magic_of, is_hole_of, size_of, set_size}
use loris.Heap.Resize.{Pager, World}
use loris.Heap.Free.{free}
use loris.Heap.Blocks.{IsHeader, IsFooter, IsHeader-same, IsFooter-same}
use loris.Heap.Chunks.{IsChunk}
use loris.Heap.BestFit.{hole_at}
use loris.Heap.Join.{position_from_lem}
use loris.Heap.JoinLeft.{
  free_rest_kept, unify_right_some, joined_left, Untouched, left_memory-IsChunk,
  left_memory_outside, free-free_rest_left,
}

-- A header whose size is written again.
pub set_size-IsHeader :
    (m : Memory) (pos hole n n' : ℕ)
    → n' < 2 ^ 32
    → IsHeader m pos hole n
    → IsHeader (set_size pos n' m) pos hole n'
unfolding set_size magic_of is_hole_of size_of
set_size-IsHeader m pos hole n n' fits h = record {
  magic = read32-write32_ne m (pos + 8) pos n' (omega arith) ∙ h.magic;
  is_hole = write32_outside m (pos + 8) n' (pos + 4) (omega arith) ∙ h.is_hole;
  size_is = read32-write32_self m (pos + 8) n' fits;
}

-- Freeing a block between two holes, all three with header and footer and 20 bytes or more, which
-- end below 2 ^ 32 and not at the end of the heap, where the well-formed index has a free slot and
-- the second hole first at place `i`, returns: the header of the first is that of a hole of all
-- three sizes, no memory changes but three fields of headers and footers, and exactly the second
-- hole has left the index. The footer at the end still names the header of the hole that is gone.
pub free_join_both :
    (pager : Pager) (w : World pager) (pos k n j i : ℕ)
    → IsChunk w.memory pos 1 k
    → IsChunk w.memory (pos + k) 0 n
    → IsChunk w.memory (pos + k + n) 1 j
    → 20 ≤ k
    → 20 ≤ n
    → 20 ≤ j
    → pos + k + n + j < 2 ^ 32
    → pos + k + n + j ≢ w.heap.end_address
    → IsOrderedList w.heap.index
    → w.heap.index.size < w.heap.index.max_size
    → i < w.heap.index.size
    → hole_at w.heap.index i ≡ pos + k + n
    → ((h : ℕ) → h < i → hole_at w.heap.index h ≢ pos + k + n)
    → (w' : World pager) × (free pager (pos + k + 12) w ≡ ok w')
      × IsHeader w'.memory pos 1 (k + n + j)
      × IsFooter w'.memory (pos + k + n + j - 8) (pos + k + n)
      × ((x : ℕ) → Untouched pos k n x → w'.memory x ≡ w.memory x)
      × IsOrderedList w'.heap.index
      × (contents w'.heap.index ≡ erase_at i (contents w.heap.index))
free_join_both pager w pos k n j i hole block next large large' large'' word within wf room inside
      at first =
    let m = w.memory in
    let f = joined_left m pos k n in
    let chunk = left_memory-IsChunk m pos k n hole block large large' (omega arith) in
    let kept = left_memory_outside m pos k n hole block large large' (omega arith) in
    let found =
      position_from_lem w.heap.index (pos + k + n) w.heap.index.size 0 i (omega arith) (omega arith)
        (omega (arith, wf.fits, wf.capacity)) at first in
    let (index, removed, wf', count, cap, rest) = remove-erase_at i w.heap.index wf inside room in
    let next_header =
      IsHeader-same m f.memory (pos + k + n) 1 j
        (λ x p q. kept x (omega arith, omega arith, omega arith)) next.header in
    let m' = set_size pos (k + n + j) f.memory in
    let outside : (x : ℕ) → Untouched pos k n x → m' x ≡ m x = λ x out. grown x out ∙ kept x out in
    (
      record w { heap = record w.heap { index = index }; memory = m' },
      free-free_rest_left m pos k n hole block large large' (omega arith) pager w refl
          ∙ free_rest_kept pager f (record f { memory = m'; footer = pos + k + n + j - 8 }) w index
              (unify_right_some f (pos + k + n) (k + n) j i w.heap.index index (omega arith)
                chunk.header.size_is next_header (omega arith) (omega arith) (omega arith)
                (omega arith) found removed)
              (ground arith) refl,
      set_size-IsHeader f.memory pos 1 (k + n) (k + n + j) (omega arith) chunk.header,
      IsFooter-same m m' (pos + k + n + j - 8) (pos + k + n)
          (λ x p q. outside x (omega arith, omega arith, omega arith)) next.footer,
      outside,
      wf',
      rest,
    )
  where
    grown :
        (x : ℕ)
        → Untouched pos k n x
        → set_size pos (k + n + j) (joined_left w.memory pos k n).memory x
          ≡ (joined_left w.memory pos k n).memory x
    grown x out =
        unfold set_size in
        write32_outside (joined_left w.memory pos k n).memory (pos + 8) (k + n + j) x
          (omega (arith, out.1))
