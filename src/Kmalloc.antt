-- ===== src/Kmalloc.antt =====
-- kernel/kmalloc.cpp: memory is handed out one piece behind the other from the end of the kernel on,
-- until there is a heap.
pub mod Placement
mod Tests
use loris.Base.{
  ℕ, ◌+◌, ◌%◌, ◌^◌, bit_and, Bool, true, false, not, ◌&&◌, Option, none, some, Run, ok, ◌>>=◌,
  add32, ◌==◌, if◌then◌else◌,
}
use loris.Heap.Resize.{Pager, World}
use loris.Heap.Alloc.{alloc}
use loris.Heap.Free.{free}

-- The globals `placement_address` and `kheap`; a heap is given with all that it works on.
pub record Allocator (pager : Pager) : Type 0 where
  pub placement_address : ℕ
  pub kheap : Option (World pager)

-- Where `kmalloc` puts the next piece.
unfoldable pub placement : (align : Bool) (placement_address : ℕ) → ℕ
placement align placement_address =
    if align && not (bit_and placement_address 0xFFFFF000 == 0)
    then add32 (bit_and placement_address 0xFFFFF000) 0x1000
    else placement_address

module _ (pager : Pager) where
  -- The results are the address and what is written to `*phys`, if anything is. `has_phys` tells
  -- whether `phys` is not null.
  unfoldable pub kmalloc :
      (fuel size : ℕ) (align has_phys : Bool)
      → Allocator pager
      → Run (ℕ × Option ℕ × Allocator pager)
  kmalloc fuel size align has_phys a = elim (a.kheap) [
    | some w ↦ do
      (address, w') ← alloc pager fuel size align w
      ok (address, none, record a { kheap = some w' })
    | none ↦
        let tmp = placement align a.placement_address in
        ok (
          tmp,
          if has_phys then some tmp else none,
          record a { placement_address = add32 tmp size },
        )
  ]

  unfoldable pub kfree : (ptr : ℕ) → Allocator pager → Run (Allocator pager)
  kfree ptr a = elim (a.kheap) [
    | some w ↦ do w' ← free pager ptr w; ok (record a { kheap = some w' })
    | none ↦ ok a
  ]

  unfoldable pub kmalloc_a :
      (fuel size : ℕ) → Allocator pager → Run (ℕ × Option ℕ × Allocator pager)
  kmalloc_a fuel size a = kmalloc fuel size true false a

  unfoldable pub kmalloc_p :
      (fuel size : ℕ) → Allocator pager → Run (ℕ × Option ℕ × Allocator pager)
  kmalloc_p fuel size a = kmalloc fuel size false true a

  unfoldable pub kmalloc_ap :
      (fuel size : ℕ) → Allocator pager → Run (ℕ × Option ℕ × Allocator pager)
  kmalloc_ap fuel size a = kmalloc fuel size true true a

  unfoldable pub set_placement_address : (address : ℕ) → Allocator pager → Allocator pager
  set_placement_address address a = record a { placement_address = address }
