-- ===== src/Heap/Merge.antt =====
-- `Free` of a block behind something that is no hole, up to the step "unify right", and the case that
-- nothing is joined.
use loris.Base.{
  ℕ, ◌+◌, ◌-◌, ◌≤◌, ◌<◌, ◌^◌, ◌≡◌, refl, ◌∙◌, ◌≢◌, ◌⊎◌, arith, true, false, Memory, add32, sub32,
  ◌==◌, read32_same, ok,
}
use loris.OrderedList.{OrderedList, insert}
use loris.OrderedList.Spec.{contents, IsOrderedList, insert_sorted}
use loris.OrderedList.Insert.{insert-insert_sorted}
use loris.Heap.Layout.{heap_magic, magic_of, is_hole_of, size_of, footer_header_of, set_is_hole}
use loris.Heap.Index.{header_less_than}
use loris.Heap.Resize.{Pager, World}
use loris.Heap.Free.{Freeing, unify_left, unify_right, free_rest, free}
use loris.Heap.Blocks.{IsHeader, IsFooter-same}
use loris.Heap.Chunks.{IsChunk}

-- In front of the chunk at `pos` ends no hole.
abbrev pub LeftBusy : Memory → ℕ → Type 0
LeftBusy m pos =
    (magic_of m (pos - 8) ≢ heap_magic)
    ⊎ ((footer_header_of m (pos - 8) ≢ pos) × (is_hole_of m (footer_header_of m (pos - 8)) ≢ 1))

-- At `next` begins no hole.
abbrev pub RightBusy : Memory → ℕ → Type 0
RightBusy m next = (magic_of m next ≢ heap_magic) ⊎ (is_hole_of m next ≡ 0)

-- The first step of `Free`: the block at `pos` of `n` bytes is marked as a hole.
abbrev pub marked : Memory → ℕ → ℕ → Freeing
marked m pos n = record {
  memory = set_is_hole pos 1 m;
  header = pos;
  footer = pos + n - 8;
  do_add = true;
}

pub marked_outside : (m : Memory) (pos x : ℕ) → x ≢ pos + 4 → set_is_hole pos 1 m x ≡ m x
unfolding set_is_hole
marked_outside m pos x ne = ground arith

pub marked_hole : (m : Memory) (pos : ℕ) → is_hole_of (set_is_hole pos 1 m) pos ≡ 1
unfolding set_is_hole is_hole_of
marked_hole m pos = ground arith

module _ (m : Memory) (pos n : ℕ) (header : IsHeader m pos 0 n) (large : 20 ≤ n) (above : 8 ≤ pos)
    (word : pos + n < 2 ^ 32) where
  pub marked-IsHeader : IsHeader (set_is_hole pos 1 m) pos 1 n
  unfolding magic_of size_of
  marked-IsHeader = record {
    magic =
        read32_same m (set_is_hole pos 1 m) pos (λ x p q. marked_outside m pos x (omega arith))
        ∙ header.magic;
    is_hole = marked_hole m pos;
    size_is =
        read32_same m (set_is_hole pos 1 m) (pos + 8)
          (λ x p q. marked_outside m pos x (omega arith))
        ∙ header.size_is;
  }

  unify_left_busy : LeftBusy m pos → unify_left (marked m pos n) ≡ marked m pos n
  unfolding unify_left magic_of footer_header_of is_hole_of
  unify_left_busy busy =
      let test_footer : sub32 pos 8 ≡ pos - 8 = omega arith in
      let same_magic =
        read32_same m (set_is_hole pos 1 m) (pos - 8)
          (λ x p q. marked_outside m pos x (omega arith)) in
      let same_header =
        read32_same m (set_is_hole pos 1 m) (pos - 8 + 4)
          (λ x p q. marked_outside m pos x (omega arith)) in
      rw (test_footer, same_magic, same_header)
        (ground (arith, marked_outside m pos (footer_header_of m (pos - 8) + 4)))

  pub free-free_rest :
      (pager : Pager) (w : World pager)
      → w.memory ≡ m
      → LeftBusy m pos
      → free pager (pos + 12) w ≡ free_rest pager (marked m pos n) w
  unfolding free
  free-free_rest pager w e busy =
      let back : sub32 (pos + 12) 12 ≡ pos = omega arith in
      let footer : sub32 (add32 pos n) 8 ≡ pos + n - 8 = omega arith in
      let nonnull : (pos + 12 == 0) ≡ false = ground arith in
      rw (nonnull, back, e, header.size_is, footer, unify_left_busy busy)

  pub unify_right_busy :
      (index : OrderedList ℕ)
      → RightBusy m (pos + n)
      → unify_right (marked m pos n) index ≡ ok (marked m pos n, index)
  unfolding unify_right magic_of is_hole_of
  unify_right_busy index busy =
      let test_header : add32 (pos + n - 8) 8 ≡ pos + n = omega arith in
      let same_magic =
        read32_same m (set_is_hole pos 1 m) (pos + n)
          (λ x p q. marked_outside m pos x (omega arith)) in
      rw (test_header, same_magic) (ground (arith, marked_outside m pos (pos + n + 4)))

-- `free_rest` where the heap does not end behind the hole and the hole goes into the index.
pub free_rest_added :
    (pager : Pager) (f f' : Freeing) (w : World pager) (index index' : OrderedList ℕ)
    → unify_right f w.heap.index ≡ ok (f', index)
    → (add32 f'.footer 8 == w.heap.end_address) ≡ false
    → f'.do_add ≡ true
    → insert (header_less_than f'.memory) f'.header index ≡ ok index'
    → free_rest pager f w
      ≡ ok (record w { heap = record w.heap { index = index' }; memory = f'.memory })
unfolding free_rest
free_rest_added pager f f' w index index' unified inside adds inserted =
    rw (unified, inside, adds, inserted)

-- Freeing a block without a hole on either side, where the heap does not end behind it and the
-- index has a free slot, returns: the block is a hole of the same bytes with its header and its
-- footer, at most the byte of the hole flag has changed in memory, and the index has the hole in
-- addition, in order.
pub free_block :
    (pager : Pager) (w : World pager) (pos n : ℕ)
    → IsChunk w.memory pos 0 n
    → 20 ≤ n
    → 8 ≤ pos
    → pos + n < 2 ^ 32
    → LeftBusy w.memory pos
    → RightBusy w.memory (pos + n)
    → pos + n ≢ w.heap.end_address
    → IsOrderedList w.heap.index
    → w.heap.index.size < w.heap.index.max_size
    → (w' : World pager) × (free pager (pos + 12) w ≡ ok w')
      × IsChunk w'.memory pos 1 n
      × ((x : ℕ) → x ≢ pos + 4 → w'.memory x ≡ w.memory x)
      × IsOrderedList w'.heap.index
      × (contents w'.heap.index
          ≡ insert_sorted (header_less_than w'.memory) pos (contents w.heap.index))
free_block pager w pos n block large above word left right within wf room =
    let m = w.memory in
    let m' = set_is_hole pos 1 m in
    let (index', inserted, wf', count, most, shown) =
      insert-insert_sorted (header_less_than m') pos w.heap.index wf room in
    (
      record w { heap = record w.heap { index = index' }; memory = m' },
      free-free_rest m pos n block.header large above word pager w refl left
          ∙ free_rest_added pager (marked m pos n) (marked m pos n) w w.heap.index index'
              (unify_right_busy m pos n block.header large above word w.heap.index right)
              (ground arith) refl inserted,
      record {
        header = marked-IsHeader m pos n block.header large above word;
        footer =
            IsFooter-same m m' (pos + n - 8) pos (λ x p q. marked_outside m pos x (omega arith))
              block.footer;
      },
      marked_outside m pos,
      wf',
      shown,
    )
