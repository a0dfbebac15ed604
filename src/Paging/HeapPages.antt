-- ===== src/Paging/HeapPages.antt =====
-- The pages that `Expand` and `Contract` of kernel/Heap.cpp map and unmap, on the paging code: the
-- calls alloc_frame(get_page(address, 1, kernel_directory), is_kernel, is_writable) and
-- free_frame(get_page(address, 0, kernel_directory)).
use loris.Base.{ℕ, Bool, true, false, Run, ok, undefined, ◌>>=◌, ◌==◌, if◌then◌else◌}
use loris.Frames.{alloc_frame, free_frame}
use loris.Heap.Resize.{Pager}
use loris.Paging.{Platform, Machine, load_page, store_page, get_page}

module _ {S : Type 0} (platform : Platform S) where
  unfoldable pub map_heap_page :
      (address : ℕ) (is_kernel is_writable : Bool) → Machine S → Run (Machine S)
  map_heap_page address is_kernel is_writable s = do
    (page, s') ← get_page platform address true s.kernel_directory s
    (p, frames') ← alloc_frame is_kernel is_writable (load_page s'.memory page) s'.frames
    ok (record s' { memory = store_page page p s'.memory; frames = frames' })

  -- `free_frame` reads and writes through a null pointer where there is no table.
  unfoldable pub unmap_heap_page : (address : ℕ) → Machine S → Run (Machine S)
  unmap_heap_page address s = do
    (page, s') ← get_page platform address false s.kernel_directory s
    if page == 0 then undefined else (do
      (p, frames') ← free_frame (load_page s'.memory page) s'.frames
      ok (record s' { memory = store_page page p s'.memory; frames = frames' }))

  -- The tables of these pages come from `platform.kmalloc`. The kernel's own kmalloc calls the same
  -- heap here, and then writes no physical address; a `Platform` says that by the result `none`, for
  -- which `get_page` is undefined.
  abbrev pub heap_pager : Pager
  heap_pager = record { State = Machine S; map_page = map_heap_page; unmap_page = unmap_heap_page }
