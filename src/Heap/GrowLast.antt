-- ===== src/Heap/GrowLast.antt =====
-- `Alloc` in a heap without a fitting hole: the last hole of the heap gets what `Expand` has added.
use native.Mathlib.Decide.{ℕ_discrete}
use mathlib.Core.Path.{subst}
use loris.Base.{
  ℕ, zero, suc, ◌+◌, ◌-◌, ◌≤◌, ◌<◌, ◌≡◌, ◌≢◌, refl, sym, ap, ◌∙◌, ◌⊎◌, arith, true, false, ok,
  add32, sub32, ltb, ◌==◌, if◌then◌else◌, load_ok, write32_outside,
}
use loris.OrderedList.{OrderedList, get_item_at_index}
use loris.OrderedList.Spec.{IsOrderedList}
use loris.Heap.Layout.{set_size, put_footer}
use loris.Heap.Index.{not_found, endmost_from}
use loris.Heap.Resize.{Pager, World}
use loris.Heap.Alloc.{grow}
use loris.Heap.Blocks.{IsHeader, IsFooter, IsHeader-same, put_footer_outside, put_footer-IsFooter}
use loris.Heap.BestFit.{hole_at}
use loris.Heap.JoinBoth.{set_size-IsHeader}
use loris.Heap.Grow.{CanGrow, grown_by, grown_by_bounds, longer, expand-longer}

module _ (index : OrderedList ℕ) (wf : IsOrderedList index) (h : ℕ)
    (others : (j : ℕ) → j < index.size → j ≢ h → hole_at index j < hole_at index h) where
  endmost_behind :
      (left i : ℕ)
      → i + left ≡ index.size
      → h < i
      → endmost_from index left i h (hole_at index h) ≡ ok h
  unfolding endmost_from get_item_at_index
  endmost_behind zero i e behind = refl
  endmost_behind (suc left) i e behind =
      let item = load_ok index.elements i 0 (omega (arith, wf.fits, wf.capacity)) in
      let lower : ltb (hole_at index h) (hole_at index i) ≡ false =
        ground (arith, others i (omega arith) (omega arith)) in
      rw (item, lower) (endmost_behind left (i + 1) (omega arith) (omega arith))

  endmost_before :
      (left i idx value : ℕ)
      → i + left ≡ index.size
      → i ≤ h
      → h < index.size
      → value < hole_at index h
      → endmost_from index left i idx value ≡ ok h
  unfolding endmost_from get_item_at_index
  endmost_before zero i idx value e before inside lower = absurd (omega arith)
  endmost_before (suc left) i idx value e before inside lower =
      let item = load_ok index.elements i 0 (omega (arith, wf.fits, wf.capacity)) in
      elim (ℕ_discrete i h) [
        | yes at ↦
            let more : ltb value (hole_at index i) ≡ true = ground (arith, ap (hole_at index) at) in
            rw (item, more)
              (subst (λ (k : ℕ). endmost_from index left (i + 1) k (hole_at index k) ≡ ok h)
                (sym at) (endmost_behind left (i + 1) (omega arith) (omega arith)))
        | no ne ↦
            let below = others i (omega arith) ne in
            let best : (if ltb value (hole_at index i) then hole_at index i else value)
                < hole_at index h =
              ground (arith, below, lower) in
            rw item (
              endmost_before left (i + 1) (if ltb value (hole_at index i) then i else idx)
                (if ltb value (hole_at index i) then hole_at index i else value) (omega arith)
                (omega arith) inside best)
      ]

-- In its branch for a heap without a fitting hole, `Alloc` makes the heap longer and gives the new
-- bytes to the hole with the highest address, at place `h` of the index: its size in the header grows
-- by them, and a footer for it is written at the end of that size, whether or not the hole ended where
-- the heap did. No other byte changes, and of the members of the heap only its end.
pub grow_endmost :
    (pager : Pager) (w : World pager) (n h k : ℕ)
    → CanGrow pager w n
    → IsOrderedList w.heap.index
    → h < w.heap.index.size
    → w.heap.index.size < not_found
    → ((j : ℕ) → j < w.heap.index.size → j ≢ h → hole_at w.heap.index j < hole_at w.heap.index h)
    → let pos = hole_at w.heap.index h in
      0 < pos
      → IsHeader w.memory pos 1 k
      → 20 ≤ k
      → pos + k ≤ w.heap.end_address
      → let grown = grown_by pager w n in
        (w' : World pager) × (grow pager n w ≡ ok w')
        × IsHeader w'.memory pos 1 (k + grown)
        × IsFooter w'.memory (pos + (k + grown) - 8) pos
        × ((x : ℕ)
            → (x < pos + 8) ⊎ (pos + 12 ≤ x)
            → (x < pos + (k + grown) - 8) ⊎ (pos + (k + grown) ≤ x)
            → w'.memory x ≡ w.memory x)
        × (w'.heap ≡ record w.heap { end_address = w.heap.end_address + grown })
unfolding grow get_item_at_index
grow_endmost pager w n h k can wf inside few others low header large ends =
    let pos = hole_at w.heap.index h in
    let grown = grown_by pager w n in
    let (least, most) = grown_by_bounds pager w n can in
    let run = expand-longer pager w n can in
    let m = set_size pos (k + grown) w.memory in
    let m' = put_footer (pos + (k + grown) - 8) pos m in
    let last : endmost_from w.heap.index w.heap.index.size 0 not_found 0 ≡ ok h =
      endmost_before w.heap.index wf h others w.heap.index.size 0 not_found 0 (omega arith)
        (omega arith) inside low in
    let item = load_ok w.heap.index.elements h 0 (omega (arith, wf.fits, wf.capacity)) in
    let real : (h == not_found) ≡ false = ground arith in
    let by : sub32 (sub32 (w.heap.end_address + grown) w.heap.start_address)
          (sub32 w.heap.end_address w.heap.start_address)
        ≡ grown =
      omega (arith, can.start_fits, can.length_fits, can.room, least, most) in
    let sum : add32 k grown ≡ k + grown = omega (arith, can.room, most) in
    let footer : sub32 (add32 pos (k + grown)) 8 ≡ pos + (k + grown) - 8 =
      omega (arith, can.room, most) in
    let longer_header =
      set_size-IsHeader w.memory pos 1 k (k + grown) (omega (arith, can.room, most)) header in
    (
      record (longer pager w n can.pages) { memory = m' },
      rw (run, last, real, item, by, header.size_is, sum, footer) refl,
      IsHeader-same m m' pos 1 (k + grown)
          (λ x a b. put_footer_outside m (pos + (k + grown) - 8) pos x (omega arith)) longer_header,
      put_footer-IsFooter m (pos + (k + grown) - 8) pos (omega (arith, can.room)),
      λ x a b.
          put_footer_outside m (pos + (k + grown) - 8) pos x (omega arith)
          ∙ unfold set_size in write32_outside w.memory (pos + 8) (k + grown) x (omega arith),
      refl,
    )
