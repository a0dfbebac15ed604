-- ===== src/Kmalloc/Placement.antt =====
-- `kmalloc` while there is no heap.
use loris.Base.{
  ℕ, ◌+◌, ◌*◌, ◌/◌, ◌^◌, ◌≤◌, ◌<◌, ◌≡◌, arith, bit_and, bit_and_shift, bit_and_mask, Bool, ◌&&◌,
  none, some, ok, add32, leb, if◌then◌else◌,
}
use loris.Heap.Resize.{Pager}
use loris.Kmalloc.{Allocator, placement, kmalloc}

-- An aligned piece begins at the next page boundary above the placement address, also where that is
-- a boundary itself; but below the first page alignment has no effect.
pub placement_lem :
    (align : Bool) (p : ℕ)
    → p < 0xFFFFF000
    → placement align p ≡ (if align && leb 0x1000 p then (p / 4096 + 1) * 4096 else p)
unfolding placement
placement_lem align p h =
    let high : bit_and p 0xFFFFF000 ≡ p / 4096 * 4096 =
      omega (arith, bit_and_shift 12 p 0xFFFFF, bit_and_mask 20 (p / 2 ^ 12)) in
    ground arith

module _ (pager : Pager) where
  -- A call without a heap.
  kmalloc-placement :
      (fuel size : ℕ) (align has_phys : Bool) (a : Allocator pager)
      → a.kheap ≡ none
      → kmalloc pager fuel size align has_phys a ≡ (
          let tmp = placement align a.placement_address in
          ok (
            tmp,
            if has_phys then some tmp else none,
            record a { placement_address = add32 tmp size },
          ))
  unfolding kmalloc
  kmalloc-placement fuel size align has_phys a e = rw e

  -- Two calls in a row without a heap, while the address space lasts, both return; the first piece
  -- begins at or behind the placement address and ends before the second begins, and the next piece
  -- will begin at or behind the end of the second.
  pub kmalloc_disjoint :
      (fuel size size' : ℕ) (align align' has_phys has_phys' : Bool) (a : Allocator pager)
      → a.kheap ≡ none
      → a.placement_address + size + size' + 0x2000 < 0xFFFFF000
      → (p : ℕ) × (p' : ℕ) × (b : Allocator pager) × (c : Allocator pager) × (kmalloc pager fuel
            size align has_phys a
          ≡ ok (p, if has_phys then some p else none, b))
        × (kmalloc pager fuel size' align' has_phys' b
            ≡ ok (p', if has_phys' then some p' else none, c))
        × (a.placement_address ≤ p)
        × (p + size ≤ p')
        × (p' + size' ≡ c.placement_address)
        × (c.kheap ≡ none)
  kmalloc_disjoint fuel size size' align align' has_phys has_phys' a e room =
      let p = placement align a.placement_address in
      let b : Allocator pager = record a { placement_address = add32 p size } in
      let p' = placement align' b.placement_address in
      let low : (a.placement_address ≤ p) × (p ≤ a.placement_address + 4096) =
        ground (arith, placement_lem align a.placement_address) in
      let next : add32 p size ≡ p + size = omega arith in
      let low' : (add32 p size ≤ p') × (p' ≤ add32 p size + 4096) =
        ground (arith, placement_lem align' (add32 p size)) in
      (
        p,
        p',
        b,
        record b { placement_address = add32 p' size' },
        kmalloc-placement fuel size align has_phys a e,
        kmalloc-placement fuel size' align' has_phys' b e,
        low.0,
        omega arith,
        omega arith,
        e,
      )
