-- ===== src/Heap/RoundTrip.antt =====
-- `Alloc` and then `Free` of the block that it returned.
use mathlib.Core.List.{Perm}
use mathlib.Core.List.Perm
use mathlib.Core.Path.{subst}
use loris.Base.{
  ℕ, suc, ◌+◌, ◌-◌, ◌≤◌, ◌<◌, ◌≡◌, sym, ◌∙◌, ◌≢◌, ◌⊎◌, inl, inr, arith, List, ◌∷◌, Memory, length,
  ok, read32_same, false,
}
use loris.OrderedList.Places.{first_place_of, get_or-take, length-take, erase_at-perm}
use loris.OrderedList.Spec.{contents, IsOrderedList, insert_sorted-perm, erase_at}
use loris.Heap.Layout.{heap_magic, magic_of, is_hole_of, size_of, footer_header_of}
use loris.Heap.Index.{header_less_than}
use loris.Heap.Resize.{Pager, World}
use loris.Heap.Alloc.{alloc}
use loris.Heap.Free.{free}
use loris.Heap.Blocks.{IsHeader}
use loris.Heap.BestFit.{hole_at}
use loris.Heap.Merge.{LeftBusy}
use loris.Heap.Join.{free_join_right}
use loris.Heap.Fit.{FoundHole, alloc_split}

-- In front of `pos` ends no hole: no footer, or that of a block that begins further down.
abbrev pub BlockInFront : Memory → ℕ → Type 0
BlockInFront m pos =
    (magic_of m (pos - 8) ≢ heap_magic)
    ⊎ ((footer_header_of m (pos - 8) + 5 ≤ pos) × (is_hole_of m (footer_header_of m (pos - 8)) ≢ 1))

BlockInFront-LeftBusy :
    (m m' : Memory) (pos : ℕ)
    → 8 ≤ pos
    → ((x : ℕ) → x < pos → m' x ≡ m x)
    → BlockInFront m pos
    → LeftBusy m' pos
unfolding magic_of footer_header_of is_hole_of
BlockInFront-LeftBusy m m' pos above same (inl other) =
    let magic = read32_same m m' (pos - 8) (λ x p q. same x (omega arith)) in
    inl (λ e. other (sym magic ∙ e))
BlockInFront-LeftBusy m m' pos above same (inr (below, busy)) =
    let header = read32_same m m' (pos - 8 + 4) (λ x p q. same x (omega arith)) in
    inr (
      omega (arith, header),
      rw header (rw (same (footer_header_of m (pos - 8) + 4) (omega arith)) busy),
    )

-- Where `FindSmallestHole` finds a hole with 20 bytes or more to spare that ends before the heap does,
-- the index has a free slot, and in front of the hole ends no other, `Alloc` without alignment and then
-- `Free` of its result both return: the hole has its header and its size again, no memory outside it
-- has changed, and the index holds the same holes as before, in whatever order.
pub alloc-free :
    (pager : Pager) (w : World pager) (size r fuel : ℕ)
    → FoundHole pager w size r
    → let pos = hole_at w.heap.index r in
      let n = size_of w.memory pos in
      size + 40 ≤ n
      → pos + n < w.heap.end_address
      → 8 ≤ pos
      → BlockInFront w.memory pos
      → (w₁ : World pager) × (w₂ : World pager) × (alloc pager (suc fuel) size false w
          ≡ ok (pos + 12, w₁))
        × (free pager (pos + 12) w₁ ≡ ok w₂)
        × IsHeader w₂.memory pos 1 n
        × ((x : ℕ) → (x < pos) ⊎ (pos + n ≤ x) → w₂.memory x ≡ w.memory x)
        × IsOrderedList w₂.heap.index
        × Perm (contents w₂.heap.index) (contents w.heap.index)
alloc-free pager w size r fuel there large inside above front =
    let pos = hole_at w.heap.index r in
    let n = size_of w.memory pos in
    let (w₁, allocated, block, hole, kept, wf, shown, count, most, end) =
      alloc_split pager w size r fuel there large (omega arith) in
    let (i, used, here, first, same) =
      first_place_of w₁.heap.index (header_less_than w₁.memory) (pos + (size + 20))
        (erase_at r (contents w.heap.index)) wf shown in
    let (w₂, freed, header, kept', _, wf', shown') =
      free_join_right pager w₁ pos (size + 20) (n - (size + 20)) i block hole (omega arith)
        (omega arith) above (omega (arith, there.word))
        (BlockInFront-LeftBusy w.memory w₁.memory pos above (λ x p. kept x (omega arith)) front)
        (omega (arith, end)) wf (omega (arith, count, most, there.slot)) used here first in
    let whole : size + 20 + (n - (size + 20)) ≡ n = omega arith in
    (
      w₁,
      w₂,
      allocated,
      freed,
      subst (λ (k : ℕ). IsHeader w₂.memory pos 1 k) whole header,
      λ x out. kept' x (omega arith) (omega arith) ∙ kept x out,
      wf',
      subst (λ (l : List ℕ). Perm l (contents w.heap.index)) (sym shown')
          (Perm.trans
            (insert_sorted-perm (header_less_than w₂.memory) pos
              (erase_at i (contents w₁.heap.index)))
            (Perm.trans (Perm.cons pos same)
              (Perm.symm (back pager w r there.in_use there.index_wf)))),
    )
  where
    back :
        (pager : Pager) (w : World pager) (r : ℕ)
        → r < w.heap.index.size
        → IsOrderedList w.heap.index
        → Perm (contents w.heap.index) (hole_at w.heap.index r ∷ erase_at r (contents w.heap.index))
    back pager w r used wf =
        let fits : w.heap.index.size ≤ length w.heap.index.elements =
          omega (arith, wf.fits, wf.capacity) in
        let count = length-take w.heap.index.size w.heap.index.elements fits in
        subst (λ (a : ℕ). Perm (contents w.heap.index) (a ∷ erase_at r (contents w.heap.index)))
          (get_or-take w.heap.index.size r w.heap.index.elements used fits)
          (erase_at-perm r (contents w.heap.index) (omega (arith, count)))
