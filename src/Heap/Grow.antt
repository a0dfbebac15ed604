-- ===== src/Heap/Grow.antt =====
-- `Alloc` in a heap without a fitting hole: the branch that calls `Expand`.
use loris.Base.{
  ℕ, ◌+◌, ◌-◌, ◌/◌, ◌^◌, ◌≤◌, ◌<◌, ◌≡◌, refl, ap, ◌∙◌, arith, Memory, ok, add32, sub32, [], ◌∷◌,
  take,
}
use loris.OrderedList.{OrderedList}
use loris.OrderedList.Spec.{contents, IsOrderedList, insert_sorted}
use loris.OrderedList.Insert.{insert-insert_sorted}
use loris.Heap.Index.{not_found, header_less_than, endmost_from}
use loris.Heap.Resize.{Pager, World, expand_size, expand}
use loris.Heap.Sizes.{map_pages, expand_size_lem, expand-map_pages}
use loris.Heap.Alloc.{grow}
use loris.Heap.Chunks.{chunk_memory}

-- A heap that can grow by `n` bytes: neither its end nor its length, the wrapped difference of its end and
-- its start, comes near to 2 ^ 32, and the paging code maps the pages that are wanted.
pub record CanGrow (pager : Pager) (w : World pager) (n : ℕ) : Type 0 where
  pub start_fits : w.heap.start_address < 2 ^ 32
  pub length_fits : sub32 w.heap.end_address w.heap.start_address + n < 0xFFFFE000
  pub room : w.heap.end_address + n < 0xFFFFE000
  pub pages : pager.State
  pub mapped :
      let length = sub32 w.heap.end_address w.heap.start_address in
      map_pages pager ((expand_size (length + n) - length + 4095) / 4096) length w.heap w.pages
      ≡ ok pages

module _ (pager : Pager) where
  open pager use {State}

  -- By how much `Expand` makes the heap longer.
  abbrev pub grown_by : World pager → ℕ → ℕ
  grown_by w n =
      let length = sub32 w.heap.end_address w.heap.start_address in
      expand_size (length + n) - length

  abbrev pub longer : World pager → ℕ → State → World pager
  longer w n p = record w {
    heap = record w.heap { end_address = w.heap.end_address + grown_by w n };
    pages = p;
  }

  module _ (w : World pager) (n : ℕ) (can : CanGrow pager w n) where
    abbrev old_length : ℕ
    old_length = sub32 w.heap.end_address w.heap.start_address

    expand_size_bounds :
        (old_length + n ≤ expand_size (old_length + n))
        × (expand_size (old_length + n) ≤ old_length + n + 4096)
    expand_size_bounds =
        let e = expand_size_lem (old_length + n) (omega (arith, can.length_fits)) in
        (ground (arith, e), ground (arith, e))

    pub grown_by_bounds : (n ≤ grown_by w n) × (grown_by w n ≤ n + 4096)
    grown_by_bounds = let (low, high) = expand_size_bounds in (omega arith, omega arith)

    pub expand-longer :
        expand pager (add32 (sub32 w.heap.end_address w.heap.start_address) n) w
        ≡ ok (longer w n can.pages)
    expand-longer =
        let (low, high) = expand_size_bounds in
        let all : add32 old_length n ≡ old_length + n = omega (arith, can.length_fits) in
        let end_address : add32 w.heap.start_address (expand_size (old_length + n))
            ≡ w.heap.end_address + grown_by w n =
          omega (arith, low, high, can.start_fits, can.length_fits, can.room) in
        let mapped =
          expand-map_pages pager (old_length + n) w (omega (arith, low, high, can.length_fits))
            (omega (arith, low, high)) in
        rw all (mapped ∙ rw (can.mapped, end_address) refl)

    -- An index without holes: what the heap got is one hole.
    abbrev one_hole : Memory
    one_hole = chunk_memory w.heap.end_address 1 (grown_by w n) w.memory

    pub grow_empty :
        IsOrderedList w.heap.index
        → w.heap.index.size ≡ 0
        → 0 < w.heap.index.max_size
        → 20 ≤ n
        → (index' : OrderedList ℕ) × (grow pager n w
            ≡ ok (
                let w₁ = longer w n can.pages in
                record w₁ { heap = record w₁.heap { index = index' }; memory = one_hole }))
          × IsOrderedList index'
          × (index'.size ≡ 1)
          × (index'.max_size ≡ w.heap.index.max_size)
          × (contents index' ≡ w.heap.end_address ∷ [])
    unfolding grow endmost_from insert_sorted
    grow_empty wf none slot large =
        let (low, high) = grown_by_bounds in
        let run = expand-longer in
        let (index', inserted, wf', count, most, shown) =
          insert-insert_sorted (header_less_than one_hole) w.heap.end_address w.heap.index wf
            (omega arith) in
        let grown : sub32 (sub32 (w.heap.end_address + grown_by w n) w.heap.start_address)
              (sub32 w.heap.end_address w.heap.start_address)
            ≡ grown_by w n =
          omega (arith, can.start_fits, can.length_fits, can.room, low, high) in
        let footer : sub32 (add32 w.heap.end_address (grown_by w n)) 8
            ≡ w.heap.end_address + grown_by w n - 8 =
          omega (arith, can.room, low, high) in
        let no_endmost : endmost_from w.heap.index w.heap.index.size 0 not_found 0 ≡ ok not_found =
          ap (λ (k : ℕ). endmost_from w.heap.index k 0 not_found 0) none in
        (
          index',
          rw (run, grown, no_endmost, footer, inserted) refl,
          wf',
          omega arith,
          most,
          shown
              ∙ ap
                  (λ (k : ℕ).
                    insert_sorted (header_less_than one_hole) w.heap.end_address
                      (take k w.heap.index.elements))
                  none,
        )
