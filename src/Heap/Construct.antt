-- ===== src/Heap/Construct.antt =====
-- The constructor of class Heap.
use mathlib.Core.Path.{subst}
use loris.Base.{
  ℕ, ◌+◌, ◌^◌, ◌≤◌, ◌<◌, ◌≡◌, refl, ◌∙◌, ◌⊎◌, arith, Bool, [], ◌∷◌, length-replicate, Memory, write,
  write32, write32_outside, read32_same, read32-write32_self, read32-write32_ne, ok, sub32, leb,
  true, ◌*◌, ◌/◌, ◌-◌, bit_and, bit_and_shift, bit_and_mask, add32, read32,
}
use loris.Strings.{memset}
use loris.Strings.Fill.{memset_lem}
use loris.OrderedList.{OrderedList, ordered_list, insert}
use loris.OrderedList.Spec.{contents, IsOrderedList, insert_sorted}
use loris.OrderedList.Insert.{insert-insert_sorted}
use loris.Heap.Layout.{
  Heap, heap_index_size, heap_magic, magic_of, is_hole_of, size_of, set_magic, set_is_hole,
  set_size,
}
use loris.Heap.Index.{header_less_than}
use loris.Heap.Alloc.{data_start, construct}
use loris.Heap.Blocks.{IsHeader, IsHeader-same}
use loris.Heap.Tiling.{hole, IsTiled}

-- The first item of a new list.
insert-ordered_list :
    {T : Type 0} (less_than : T → T → Bool) (null item : T) (n : ℕ)
    → 0 < n
    → n < 2 ^ 32
    → (l : OrderedList T) × (insert less_than item (ordered_list null n) ≡ ok l)
      × IsOrderedList l
      × (l.size ≡ 1)
      × (l.max_size ≡ n)
      × (contents l ≡ item ∷ [])
unfolding ordered_list insert_sorted
insert-ordered_list less_than null item n some_room width =
    let (l, run, wf, count, most, e) =
      insert-insert_sorted less_than item (ordered_list null n)
        (record { capacity = length-replicate n null; fits = omega arith; in_width = width })
        some_room in
    (l, run, wf, count, most, e)

-- The first header, in the order in which the constructor writes its fields.
abbrev first_hole : (hole size : ℕ) → Memory → Memory
first_hole hole size m = set_is_hole hole 1 (set_magic hole heap_magic (set_size hole size m))

first_hole-IsHeader :
    (hole size : ℕ) (m : Memory) → size < 2 ^ 32 → IsHeader (first_hole hole size m) hole 1 size
unfolding set_magic set_is_hole set_size magic_of is_hole_of size_of
first_hole-IsHeader hole size m fits =
    let m₁ = write32 m (hole + 8) size in
    let m₂ = write32 m₁ hole heap_magic in
    record {
      magic =
          read32_same m₂ (write m₂ (hole + 4) 1) hole (λ x p q. ground arith)
          ∙ read32-write32_self m₁ hole heap_magic (omega arith);
      is_hole = ground arith;
      size_is =
          read32_same m₂ (write m₂ (hole + 4) 1) (hole + 8) (λ x p q. ground arith)
          ∙ read32-write32_ne m₁ hole (hole + 8) heap_magic (omega arith)
          ∙ read32-write32_self m (hole + 8) size fits;
    }

first_hole_outside :
    (hole size x : ℕ) (m : Memory) → (x < hole) ⊎ (hole + 12 ≤ x) → first_hole hole size m x ≡ m x
unfolding set_magic set_is_hole set_size
first_hole_outside hole size x m out =
    let m₁ = write32 m (hole + 8) size in
    let kept : write (write32 m₁ hole heap_magic) (hole + 4) 1 x ≡ write32 m₁ hole heap_magic x =
      ground arith in
    kept
    ∙ write32_outside m₁ hole heap_magic x (omega arith)
    ∙ write32_outside m (hole + 8) size x (omega arith)

data_start_bounds :
    (start : ℕ)
    → start + 0x81000 < 2 ^ 32
    → (start + 4 * heap_index_size ≤ data_start start) × (data_start start ≤ start + 0x81000)
unfolding data_start
data_start_bounds start room =
    let behind = start + 4 * heap_index_size in
    let sum : add32 start (4 * heap_index_size) ≡ behind = omega (arith, room) in
    let high : bit_and behind 0xFFFFF000 ≡ behind / 4096 * 4096 =
      omega (arith, room, bit_and_shift 12 behind 0xFFFFF, bit_and_mask 20 (behind / 2 ^ 12)) in
    ground (arith, room, sum, high)

-- For an array of the index that ends 4096 bytes or more below 2 ^ 32, and an end of the heap 20
-- bytes or more behind the first hole and below 2 ^ 32, the constructor returns. The well-formed
-- index of the fixed length holds one hole, behind its array, and the heap from there to the end is
-- this hole, whose header is written. The array in memory holds the hole's address and zeros behind
-- it. No memory outside the array and the header changes. The end is the argument, but the start of
-- the heap is its maximum, and the maximum and the two flags are left as they were.
pub construct-IsHeader :
    (start end_addr max : ℕ) (m_supervisor m_readonly : Bool) (old : Heap) (m : Memory)
    → start + 0x81000 < 2 ^ 32
    → let first = data_start start in
      first + 20 ≤ end_addr
      → end_addr < 2 ^ 32
      → (h : Heap) × (m' : Memory) × (construct start end_addr max m_supervisor m_readonly old m
          ≡ ok (h, m'))
        × (contents h.index ≡ first ∷ [])
        × IsOrderedList h.index
        × (h.index.size ≡ 1)
        × (h.index.max_size ≡ heap_index_size)
        × (start + 4 * heap_index_size ≤ first)
        × IsTiled m' first (hole (end_addr - first) ∷ []) end_addr
        × (read32 m' start ≡ first)
        × ((j : ℕ) → 4 ≤ j → j < 4 * heap_index_size → m' (start + j) ≡ 0)
        × ((x : ℕ)
            → (x < start) ⊎ (start + 4 * heap_index_size ≤ x)
            → (x < first) ⊎ (first + 12 ≤ x)
            → m' x ≡ m x)
        × (h ≡ record old { index = h.index; start_address = max; end_address = end_addr })
unfolding construct IsTiled
construct-IsHeader start end_addr max m_supervisor m_readonly old m room large word =
    let first = data_start start in
    let (behind, near) = data_start_bounds start room in
    let length = 4 * heap_index_size in
    let size = sub32 end_addr first in
    let size_is : size ≡ end_addr - first = omega (arith, large, word) in
    let cleared = memset start 0 length m in
    let m₁ = first_hole first size cleared in
    let m' = write32 m₁ start first in
    let (index, run, wf, count, most, e) =
      insert-ordered_list (header_less_than m₁) 0 first heap_index_size (omega arith)
        (omega arith) in
    let fits : leb (start + length) (2 ^ 32) ≡ true = ground (arith, room) in
    (
      record old { index = index; start_address = max; end_address = end_addr },
      m',
      rw (fits, run) refl,
      e,
      wf,
      count,
      most,
      behind,
      (
        omega (arith, large),
        subst (λ (n : ℕ). IsHeader m' first 1 n) size_is
            (IsHeader-same m₁ m' first 1 size
              (λ x p q. write32_outside m₁ start first x (omega (arith, behind)))
              (first_hole-IsHeader first size cleared (omega (arith, size_is, word)))),
        omega (arith, large),
      ),
      read32-write32_self m₁ start first (omega (arith, near, room)),
      λ j p q.
          write32_outside m₁ start first (start + j) (omega arith)
          ∙ first_hole_outside first size (start + j) cleared (omega (arith, behind))
          ∙ (memset_lem start 0 length m).0 j q,
      λ x out out'.
          write32_outside m₁ start first x (omega arith)
          ∙ first_hole_outside first size x cleared out'
          ∙ (memset_lem start 0 length m).1 x out,
      refl,
    )
