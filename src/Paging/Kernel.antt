-- ===== src/Paging/Kernel.antt =====
-- The paging code on the kernel's own kmalloc.
use loris.Base.{ℕ, ◌≡◌, refl, true, some, read32, ok, undefined}
use loris.Heap.Resize.{Pager, World}
use loris.Heap.Alloc.{alloc}
use loris.Kmalloc.{Allocator, kmalloc}
use loris.Paging.{Platform, Machine, tables, get_page, clone_directory}
use loris.Paging.Tables.{table_index}

module _ (pager : Pager) (fuel : ℕ)
    (copy : (src destination : ℕ) → Allocator pager → Allocator pager) where
  unfoldable pub kernel_platform : Platform (Allocator pager)
  kernel_platform = record {
    kmalloc = λ size align has_phys a. kmalloc pager fuel size align has_phys a;
    copy_page_physical = copy;
  }

  module _ (s : Machine (Allocator pager)) (w w' : World pager) (p : ℕ)
      (heap : s.platform_state.kheap ≡ some w) where
    -- Once there is a heap, `kmalloc` writes nothing to `*phys`. So even where the heap has memory for a
    -- table and for a directory, `get_page` with `make`, for an address whose table is missing, reads its
    -- variable `tmp` before anything was written to it, and so does `clone_directory` with `phys`.
    pub get_page_with_heap :
        (address dir src q : ℕ) (v : World pager)
        → alloc pager fuel 4096 true w ≡ ok (p, w')
        → alloc pager fuel 8196 true w ≡ ok (q, v)
        → read32 s.memory (tables dir (table_index address)) ≡ 0
        → (get_page kernel_platform address true dir s ≡ undefined)
          × (clone_directory kernel_platform src s ≡ undefined)
    unfolding get_page clone_directory kernel_platform kmalloc
    get_page_with_heap address dir src q v table_given directory_given missing =
        (rw (missing, heap, table_given) refl, rw (heap, directory_given) refl)
