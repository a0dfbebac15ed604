-- ===== src/Kmalloc/Tests.antt =====
-- The placement allocator from 1 MiB on.
use loris.Base.{ℕ, ◌+◌, ◌≤◌, ◌≡◌, refl, arith, true, false, some, none, ok}
use loris.Heap.Resize.{Pager}
use loris.Kmalloc.{Allocator, kmalloc}
use loris.Kmalloc.Placement.{kmalloc_disjoint}

abbrev no_pages : Pager
no_pages = record { State = ℕ; map_page = λ a k w p. ok p; unmap_page = λ a p. ok p }

abbrev start : Allocator no_pages
start = record { placement_address = 0x100010; kheap = none }

kmalloc_disjoint_example :
    (p : ℕ) × (p' : ℕ) × (b : Allocator no_pages) × (c : Allocator no_pages) × (kmalloc no_pages 1
        40 false true start
      ≡ ok (p, some p, b))
    × (kmalloc no_pages 1 60 true false b ≡ ok (p', none, c))
    × (0x100010 ≤ p)
    × (p + 40 ≤ p')
    × (p' + 60 ≡ c.placement_address)
    × (c.kheap ≡ none)
kmalloc_disjoint_example =
    kmalloc_disjoint no_pages 1 40 60 false true true false start refl (omega arith)
