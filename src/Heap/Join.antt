-- ===== src/Heap/Join.antt =====
-- `Free` of a block with a hole behind it, the step "unify right".
use native.Mathlib.Decide.{ℕ_discrete}
use loris.Base.{
  ℕ, zero, suc, ◌+◌, ◌-◌, ◌≤◌, ◌<◌, ◌^◌, ◌≡◌, refl, ap, ◌∙◌, ◌≢◌, ◌⊎◌, arith, true, false, Memory,
  add32, sub32, ◌==◌, write32_outside, read32-write32_self, read32-write32_ne, ok, load_ok, length,
}
use loris.OrderedList.{OrderedList, get_item_at_index, remove}
use loris.OrderedList.Spec.{contents, IsOrderedList, insert_sorted, erase_at}
use loris.OrderedList.Insert.{insert-insert_sorted}
use loris.OrderedList.Remove.{remove-erase_at}
use loris.Heap.Layout.{magic_of, is_hole_of, size_of, set_is_hole, set_size}
use loris.Heap.Index.{header_less_than, position_from}
use loris.Heap.Resize.{Pager, World}
use loris.Heap.Free.{Freeing, unify_right, free}
use loris.Heap.Blocks.{IsHeader, IsFooter, IsHeader-same, IsFooter-same}
use loris.Heap.Chunks.{IsChunk}
use loris.Heap.BestFit.{hole_at}
use loris.Heap.Merge.{
  LeftBusy, marked, marked_outside, marked-IsHeader, free-free_rest, free_rest_added,
}

-- The search for a header stops at its first place.
pub position_from_lem :
    (index : OrderedList ℕ) (h left i r : ℕ)
    → i ≤ r
    → r < i + left
    → i + left ≤ length index.elements
    → hole_at index r ≡ h
    → ((j : ℕ) → j < r → hole_at index j ≢ h)
    → position_from index h left i ≡ ok r
unfolding position_from get_item_at_index
position_from_lem index h zero i r lo hi room at first = absurd (omega arith)
position_from_lem index h (suc left) i r lo hi room at first =
    let there = load_ok index.elements i 0 (omega arith) in
    elim (ℕ_discrete i r) [
      | yes e ↦
          let here : (hole_at index i == h) ≡ true = ground (arith, ap (hole_at index) e) in
          rw (there, here) (ap ok e)
      | no ne ↦
          let other : (hole_at index i == h) ≡ false = ground (arith, first i) in
          rw (there, other)
            (position_from_lem index h left (i + 1) r (omega arith) (omega arith) (omega arith) at
              first)
    ]

-- The local variables after the join of `n` and `k` bytes.
abbrev joined : Memory → ℕ → ℕ → ℕ → Freeing
joined m pos n k = record (marked m pos n) {
  memory = set_size pos (n + k) (set_is_hole pos 1 m);
  footer = pos + n + k - 8;
}

joined_outside :
    (m : Memory) (pos v x : ℕ)
    → x ≢ pos + 4
    → (x < pos + 8) ⊎ (pos + 12 ≤ x)
    → set_size pos v (set_is_hole pos 1 m) x ≡ m x
unfolding set_size
joined_outside m pos v x ne out =
    write32_outside (set_is_hole pos 1 m) (pos + 8) v x (omega arith) ∙ marked_outside m pos x ne

module _ (m : Memory) (pos n k : ℕ) (header : IsHeader m pos 0 n) (next : IsHeader m (pos + n) 1 k)
    (large : 20 ≤ n) (large' : 20 ≤ k) (above : 8 ≤ pos) (word : pos + n + k < 2 ^ 32) where
  joined-IsHeader : IsHeader (set_size pos (n + k) (set_is_hole pos 1 m)) pos 1 (n + k)
  unfolding set_size magic_of is_hole_of size_of
  joined-IsHeader =
      let m₁ = set_is_hole pos 1 m in
      let marked_header = marked-IsHeader m pos n header large above (omega arith) in
      record {
        magic = read32-write32_ne m₁ (pos + 8) pos (n + k) (omega arith) ∙ marked_header.magic;
        is_hole =
            write32_outside m₁ (pos + 8) (n + k) (pos + 4) (omega arith) ∙ marked_header.is_hole;
        size_is = read32-write32_self m₁ (pos + 8) (n + k) (omega arith);
      }

  joined_next : IsHeader (set_size pos (n + k) (set_is_hole pos 1 m)) (pos + n) 1 k
  joined_next =
      IsHeader-same m (set_size pos (n + k) (set_is_hole pos 1 m)) (pos + n) 1 k
        (λ x p q. joined_outside m pos (n + k) x (omega arith) (omega arith)) next

  marked_next : IsHeader (set_is_hole pos 1 m) (pos + n) 1 k
  marked_next =
      IsHeader-same m (set_is_hole pos 1 m) (pos + n) 1 k
        (λ x p q. marked_outside m pos x (omega arith)) next

  unify_right-joined :
      (index index' : OrderedList ℕ) (i : ℕ)
      → position_from index (pos + n) index.size 0 ≡ ok i
      → remove i index ≡ ok index'
      → unify_right (marked m pos n) index ≡ ok (joined m pos n k, index')
  unfolding unify_right
  unify_right-joined index index' i found removed =
      let test_header : add32 (pos + n - 8) 8 ≡ pos + n = omega arith in
      let marked_header = marked-IsHeader m pos n header large above (omega arith) in
      let sum : add32 n k ≡ n + k = omega arith in
      let footer : sub32 (add32 (pos + n) k) 8 ≡ pos + n + k - 8 = omega arith in
      rw (
        test_header, marked_next.magic, marked_next.is_hole, marked_header.size_is,
        marked_next.size_is, sum, joined_next.size_is, found, removed, footer,
      )

-- Freeing a block that has no hole in front and behind it a hole of the index, where the heap does
-- not end behind the two and the index has a free slot, joins them: `Free` returns, the header of
-- the block is that of a hole of both sizes, no byte changes but in that header, and the index has
-- the joined hole in place of the other. The footer at the end of the joined hole still names the
-- header of the hole that is gone.
pub free_join_right :
    (pager : Pager) (w : World pager) (pos n k i : ℕ)
    → IsChunk w.memory pos 0 n
    → IsChunk w.memory (pos + n) 1 k
    → 20 ≤ n
    → 20 ≤ k
    → 8 ≤ pos
    → pos + n + k < 2 ^ 32
    → LeftBusy w.memory pos
    → pos + n + k ≢ w.heap.end_address
    → IsOrderedList w.heap.index
    → w.heap.index.size < w.heap.index.max_size
    → i < w.heap.index.size
    → hole_at w.heap.index i ≡ pos + n
    → ((j : ℕ) → j < i → hole_at w.heap.index j ≢ pos + n)
    → (w' : World pager) × (free pager (pos + 12) w ≡ ok w')
      × IsHeader w'.memory pos 1 (n + k)
      × ((x : ℕ) → x ≢ pos + 4 → (x < pos + 8) ⊎ (pos + 12 ≤ x) → w'.memory x ≡ w.memory x)
      × IsFooter w'.memory (pos + n + k - 8) (pos + n)
      × IsOrderedList w'.heap.index
      × (contents w'.heap.index
          ≡ insert_sorted (header_less_than w'.memory) pos (erase_at i (contents w.heap.index)))
free_join_right pager w pos n k i block hole large large' above word left within wf room inside at
      first =
    let m = w.memory in
    let m' = set_size pos (n + k) (set_is_hole pos 1 m) in
    let found =
      position_from_lem w.heap.index (pos + n) w.heap.index.size 0 i (omega arith) (omega arith)
        (omega (arith, wf.fits, wf.capacity)) at first in
    let (index, removed, wf₁, count, cap, rest) = remove-erase_at i w.heap.index wf inside room in
    let (index', inserted, wf', count', most, shown) =
      insert-insert_sorted (header_less_than m') pos index wf₁ (omega (arith, count, cap)) in
    (
      record w { heap = record w.heap { index = index' }; memory = m' },
      free-free_rest m pos n block.header large above (omega arith) pager w refl left
          ∙ free_rest_added pager (marked m pos n) (joined m pos n k) w index index'
              (unify_right-joined m pos n k block.header hole.header large large' above word
                w.heap.index index i found removed)
              (ground arith) refl inserted,
      joined-IsHeader m pos n k block.header hole.header large large' above word,
      joined_outside m pos (n + k),
      IsFooter-same m m' (pos + n + k - 8) (pos + n)
          (λ x p q. joined_outside m pos (n + k) x (omega arith) (omega arith)) hole.footer,
      wf',
      shown ∙ ap (insert_sorted (header_less_than m') pos) rest,
    )
