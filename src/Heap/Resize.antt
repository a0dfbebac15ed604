-- ===== src/Heap/Resize.antt =====
-- `Expand` and `Contract`. The pages behind the heap are the paging code's, so its two calls,
-- `alloc_frame(get_page(a, 1, kernel_directory), …)` and
-- `free_frame(get_page(a, 0, kernel_directory))`, are an interface.
use loris.Base.{
  ℕ, zero, suc, ◌^◌, bit_and, Bool, not, Memory, Run, ok, halt, ◌>>=◌, add32, sub32, ltb, ◌==◌,
  if◌then◌else◌,
}
use loris.Heap.Layout.{Heap, page_size, heap_min_size}

-- What `Expand` makes of its argument; `new_size & 0xFFFFF000 != 0` is `new_size & 1`.
unfoldable pub expand_size : ℕ → ℕ
expand_size new_size =
    if bit_and new_size 1 == 0 then new_size else add32 (bit_and new_size 0xFFFFF000) page_size

-- What `Contract` makes of its argument, and returns.
unfoldable pub contract_size : ℕ → ℕ
contract_size new_size =
    let rounded =
      if bit_and new_size 0x1000 == 0
      then new_size
      else add32 (bit_and new_size 0x1000) page_size in
    if ltb rounded heap_min_size then heap_min_size else rounded

pub record Pager : Type 1 where
  pub State : Type 0
  pub map_page : (address : ℕ) (is_kernel is_writable : Bool) → State → Run State
  pub unmap_page : (address : ℕ) → State → Run State

module _ (pager : Pager) where
  open pager use {State, map_page, unmap_page}

  -- All that the methods of the heap read and write.
  pub record World : Type 0 where
    pub heap : Heap
    pub memory : Memory
    pub pages : State

  -- The loop of `Expand`. `i` takes each of its 2 ^ 20 values once before they repeat, so a loop
  -- that is not done after so many rounds never ends.
  unfoldable pub expand_pages : (fuel i new_size : ℕ) → Heap → State → Run State
  expand_pages zero i new_size heap pages = halt
  expand_pages (suc fuel) i new_size heap pages =
      let rest = λ (p : State). expand_pages fuel (add32 i page_size) new_size heap p in
      if ltb i new_size
      then (do
        pages' ← map_page (add32 heap.start_address i) heap.supervisor (not heap.readonly) pages
        rest pages')
      else ok pages

  unfoldable pub expand : (new_size : ℕ) → World → Run World
  expand new_size w =
      let size = expand_size new_size in
      let old_size = sub32 w.heap.end_address w.heap.start_address in
      do
        pages ← expand_pages (2 ^ 20) old_size size w.heap w.pages
        ok (record w {
          heap = record w.heap { end_address = add32 w.heap.start_address size };
          pages = pages;
        })

  -- The loop of `Contract`, with the same bound.
  unfoldable pub contract_pages : (fuel i new_size : ℕ) → Heap → State → Run State
  contract_pages zero i new_size heap pages = halt
  contract_pages (suc fuel) i new_size heap pages =
      let rest = λ (p : State). contract_pages fuel (sub32 i page_size) new_size heap p in
      if ltb new_size i
      then (do pages' ← unmap_page (add32 heap.start_address i) pages; rest pages')
      else ok pages

  unfoldable pub contract : (new_size : ℕ) → World → Run (ℕ × World)
  contract new_size w =
      let size = contract_size new_size in
      let old_size = sub32 w.heap.end_address w.heap.start_address in
      do
        pages ← contract_pages (2 ^ 20) (sub32 old_size page_size) size w.heap w.pages
        ok (
          size,
          record w {
            heap = record w.heap { end_address = add32 w.heap.start_address size };
            pages = pages;
          },
        )
