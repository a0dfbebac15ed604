-- ===== src/Heap/Overruns.antt =====
-- `Alloc` of a page-aligned block from a hole that ends in front of the next page boundary.
use native.Mathlib.Decide.{dec_lt}
use loris.Base.{
  ℕ, suc, ◌+◌, ◌-◌, ◌*◌, ◌/◌, ◌%◌, ◌≤◌, ◌<◌, ◌^◌, ◌≡◌, refl, ap, ◌∙◌, ◌⊎◌, inl, inr, arith, true,
  false, bit_and, bit_and_mask, Bool, Memory, ok, add32, sub32, ltb, leb, if◌then◌else◌,
}
use loris.OrderedList.{OrderedList, insert}
use loris.OrderedList.Spec.{contents, IsOrderedList, insert_sorted}
use loris.OrderedList.Insert.{insert-insert_sorted}
use loris.Heap.Layout.{size_of, put_header, put_footer}
use loris.Heap.Index.{header_less_than, hole_fits, find_smallest_hole}
use loris.Heap.Resize.{Pager, World}
use loris.Heap.Alloc.{write_block, alloc}
use loris.Heap.Blocks.{
  IsHeader, IsHeader-same, put_header_outside, put_header-IsHeader, put_footer_outside,
}
use loris.Heap.Chunks.{IsChunk, chunk_memory, chunk_memory-IsChunk, IsChunk-same}
use loris.Heap.BestFit.{hole_at, find_smallest_hole_first}
use loris.Heap.Aligned.{front_of, FoundAligned, alloc-write_block}

-- A footer that is written or not.
abbrev footer_if : Bool → (f header : ℕ) → Memory → Memory
footer_if b f header m = if b then put_footer f header m else m

footer_if_outside :
    (b : Bool) (f header x : ℕ) (m : Memory)
    → (x < f) ⊎ (f + 8 ≤ x)
    → footer_if b f header m x ≡ m x
footer_if_outside true f header x m out = put_footer_outside m f header x out
footer_if_outside false f header x m out = refl

-- For a header at an even address `FindSmallestHole` takes nothing off for the alignment.
pub hole_fits_even :
    (size : ℕ) (m : Memory) (h : ℕ)
    → h % 2 ≡ 0
    → h + 12 < 2 ^ 32
    → size_of m h < 2 ^ 32
    → hole_fits size true m h ≡ leb size (size_of m h)
unfolding hole_fits
hole_fits_even size m h even word fits =
    let sum : add32 h 12 ≡ h + 12 = omega arith in
    let low : bit_and (h + 12) 1 ≡ (h + 12) % 2 = bit_and_mask 1 (h + 12) in
    let rest : (h + 12) % 2 ≡ 0 = omega (arith, even) in
    let whole : sub32 (size_of m h) 0 ≡ size_of m h = omega (arith, fits) in
    rw (sum, low, rest, whole) refl

-- The first hole of the index with `size + 20` bytes is the one at place `r`, the headers up to it stand at
-- even addresses, and it ends in front of the header of a block whose data begins with the next page.
pub record TooShort (pager : Pager) (w : World pager) (size r : ℕ) : Type 0 where
  pub index_wf : IsOrderedList w.heap.index
  pub slot : w.heap.index.size < w.heap.index.max_size
  pub in_use : r < w.heap.index.size
  pub even :
      (j : ℕ) → j ≤ r → (hole_at w.heap.index j % 2 ≡ 0) × (hole_at w.heap.index j + 12 < 2 ^ 32)
  pub smaller : (j : ℕ) → j < r → size_of w.memory (hole_at w.heap.index j) < size + 20
  pub above : 4096 ≤ hole_at w.heap.index r
  pub large : size + 40 ≤ size_of w.memory (hole_at w.heap.index r)
  pub short : size_of w.memory (hole_at w.heap.index r) ≤ front_of (hole_at w.heap.index r)
  pub word : hole_at w.heap.index r + 8192 + size < 2 ^ 32

module _ (pager : Pager) (w : World pager) (size r fuel : ℕ) (there : TooShort pager w size r) where
  abbrev pos : ℕ
  pos = hole_at w.heap.index r

  abbrev hole_size : ℕ
  hole_size = size_of w.memory pos

  abbrev front : ℕ
  front = front_of pos

  overrun_found : find_smallest_hole (size + 20) true w.memory w.heap.index ≡ ok r
  overrun_found =
      let m = w.memory in
      let index = w.heap.index in
      let (r_even, r_word) = there.even r (omega arith) in
      let r_fits : hole_fits (size + 20) true m pos ≡ true =
        hole_fits_even (size + 20) m pos r_even r_word (omega (arith, there.short, there.word))
        ∙ ground (arith, there.large) in
      let before : (j : ℕ) → j < r → hole_fits (size + 20) true m (hole_at index j) ≡ false =
        λ j lt.
          let (j_even, j_word) = there.even j (omega arith) in
          hole_fits_even (size + 20) m (hole_at index j) j_even j_word
            (omega (arith, there.smaller j lt, there.word))
          ∙ ground (arith, there.smaller j lt) in
      elim (find_smallest_hole_first (size + 20) true m index there.index_wf) [
        | inl (run, none) ↦ let unfit = none r there.in_use in ground (arith, unfit, r_fits)
        | inr (s, run, lt, fit, first) ↦ elim (dec_lt s r) [
          | yes below ↦ let unfit = before s below in ground (arith, unfit, fit)
          | no not_below ↦ elim (dec_lt r s) [
            | yes over ↦ let unfit = first r over in ground (arith, unfit, r_fits)
            | no not_over ↦ let same : s ≡ r = omega arith in run ∙ ap (λ (k : ℕ). ok k) same
          ]
        ]
      ]

  overrun-FoundAligned : FoundAligned pager w size r
  overrun-FoundAligned = record {
    index_wf = there.index_wf;
    slot = there.slot;
    in_use = there.in_use;
    found = overrun_found;
    above = there.above;
    front_fits = omega (arith, there.large, there.short);
    large = there.large;
    word = omega (arith, there.short, there.word);
  }

  abbrev block_at : ℕ
  block_at = pos + front

  abbrev rest_at : ℕ
  rest_at = block_at + (size + 20)

  abbrev wrapped_size : ℕ
  wrapped_size = 2 ^ 32 + hole_size - front - (size + 20)

  abbrev front_memory : Memory
  front_memory = chunk_memory pos 1 front w.memory

  abbrev block_memory : Memory
  block_memory = chunk_memory block_at 0 (size + 20) front_memory

  abbrev header_memory : Memory
  header_memory = put_header rest_at 1 wrapped_size block_memory

  -- The footer of the wrapped hole is written where the old hole had its own.
  abbrev overrun_memory : Memory
  overrun_memory =
      footer_if (ltb (pos + hole_size - 8) w.heap.end_address) (pos + hole_size - 8) rest_at
        header_memory

  overrun_run :
      (index' : OrderedList ℕ)
      → insert (header_less_than overrun_memory) rest_at w.heap.index ≡ ok index'
      → alloc pager (suc fuel) size true w
        ≡ ok (
          block_at + 12,
          record w { heap = record w.heap { index = index' }; memory = overrun_memory },
        )
  unfolding write_block
  overrun_run index' inserted =
      let large = there.large in
      let short = there.short in
      let word = there.word in
      let data_address : add32 block_at 12 ≡ block_at + 12 = omega (arith, word) in
      let footer : add32 (block_at + 12) size ≡ rest_at - 8 = omega (arith, word) in
      let left : sub32 (sub32 hole_size front) (size + 20) ≡ wrapped_size =
        omega (arith, large, short, word) in
      let rest : add32 (rest_at - 8) 8 ≡ rest_at = omega (arith, word) in
      let some_left : ltb 0 wrapped_size ≡ true = ground (arith, large, short, word) in
      let hole_footer : sub32 (add32 rest_at wrapped_size) 8 ≡ pos + hole_size - 8 =
        omega (arith, large, short, word) in
      alloc-write_block pager w size r fuel overrun-FoundAligned
      ∙ rw (left, some_left, data_address, footer, rest, hole_footer, inserted) refl

  -- Where the well-formed index has a free slot, the headers of its holes up to place `r` stand at
  -- even addresses, the hole at `r`, above the first page, is the first with room for the block,
  -- has 20 bytes or more to spare, and ends where the header of an aligned block would begin or in
  -- front of that, 8192 bytes and the size below 2 ^ 32, `Alloc` with alignment takes this hole all
  -- the same, and returns the next page boundary. The whole block, with header and footer, is
  -- written behind the end of the hole; behind it follows the header of a hole whose size has
  -- wrapped around, which goes into the index.
  pub alloc_aligned_overruns :
      (w' : World pager) × (alloc pager (suc fuel) size true w ≡ ok ((pos / 4096 + 1) * 4096, w'))
      × (pos + hole_size ≤ pos + front)
      × IsChunk w'.memory (pos + front) 0 (size + 20)
      × IsHeader w'.memory (pos + front + (size + 20)) 1 (2 ^ 32 + hole_size - front - (size + 20))
      × (contents w'.heap.index
          ≡ insert_sorted
              (header_less_than w'.memory)
              (pos + front + (size + 20))
              (contents w.heap.index))
  alloc_aligned_overruns =
      let large = there.large in
      let short = there.short in
      let word = there.word in
      let boundary : block_at + 12 ≡ (pos / 4096 + 1) * 4096 = omega (arith, large, short) in
      let (index', inserted, wf', count, most, shown) =
        insert-insert_sorted (header_less_than overrun_memory) rest_at w.heap.index there.index_wf
          there.slot in
      let w' : World pager = record w {
        heap = record w.heap { index = index' };
        memory = overrun_memory;
      } in
      let written = ltb (pos + hole_size - 8) w.heap.end_address in
      (
        w',
        overrun_run index' inserted ∙ ap (λ (a : ℕ). ok (a, w')) boundary,
        omega (arith, short),
        IsChunk-same block_memory overrun_memory block_at 0 (size + 20) (omega arith)
            (λ x p q.
              footer_if_outside written (pos + hole_size - 8) rest_at x header_memory
                (omega (arith, large, short))
              ∙ put_header_outside block_memory rest_at 1 wrapped_size x (omega arith))
            (chunk_memory-IsChunk front_memory block_at 0 (size + 20) (omega arith)
              (omega (arith, word))),
        IsHeader-same header_memory overrun_memory rest_at 1 wrapped_size
            (λ x p q.
              footer_if_outside written (pos + hole_size - 8) rest_at x header_memory
                (omega (arith, large, short)))
            (put_header-IsHeader block_memory rest_at 1 wrapped_size
              (omega (arith, large, short, word))),
        shown,
      )
