-- ===== src/Heap/Index.antt =====
-- The index of the holes: its order, and the three loops over it.
use loris.Base.{
  ℕ, zero, suc, ◌+◌, ◌-◌, ◌%◌, ◌^◌, bit_and, Bool, Memory, Run, ok, ◌>>=◌, add32, sub32, ltb, leb,
  ◌==◌, if◌then◌else◌,
}
use loris.OrderedList.{OrderedList, get_item_at_index}
use loris.Heap.Layout.{header_size, page_size, size_of}

-- `(uint32_t)-1`.
abbrev pub not_found : ℕ
not_found = 2 ^ 32 - 1

-- `HeaderLessThan`.
unfoldable pub header_less_than : Memory → ℕ → ℕ → Bool
header_less_than m a b = ltb (size_of m a) (size_of m b)

-- The test of one hole in `FindSmallestHole`. In C++ `x & 0xFFFFF000 != 0` is `x & 1`, since `!=`
-- binds tighter than `&`.
unfoldable pub hole_fits : (size : ℕ) (page_align : Bool) → Memory → (header : ℕ) → Bool
hole_fits size page_align m header =
    let data_start = add32 header header_size in
    let offset = if bit_and data_start 1 == 0 then 0 else page_size - data_start % page_size in
    if page_align then leb size (sub32 (size_of m header) offset) else leb size (size_of m header)

-- The loop of `FindSmallestHole` at `iterator`, with `Size() - iterator` rounds left.
unfoldable pub find_hole_from :
    (size : ℕ) (page_align : Bool) → Memory → OrderedList ℕ → (left iterator : ℕ) → Run ℕ
find_hole_from size page_align m index zero iterator = ok not_found
find_hole_from size page_align m index (suc left) iterator = do
  header ← get_item_at_index iterator index
  let rest = find_hole_from size page_align m index left (iterator + 1)
  if hole_fits size page_align m header then ok iterator else rest

unfoldable pub find_smallest_hole : (size : ℕ) (page_align : Bool) → Memory → OrderedList ℕ → Run ℕ
find_smallest_hole size page_align m index = find_hole_from size page_align m index index.size 0

-- The loop of `Alloc` that looks for the endmost header: `idx` and `value` are the best so far.
unfoldable pub endmost_from : OrderedList ℕ → (left iterator idx value : ℕ) → Run ℕ
endmost_from index zero iterator idx value = ok idx
endmost_from index (suc left) iterator idx value = do
  tmp ← get_item_at_index iterator index
  endmost_from index left (iterator + 1) (if ltb value tmp then iterator else idx)
      (if ltb value tmp then tmp else value)

-- The loops of `Free` that look for a header; they end at `Size()` where it is missing.
unfoldable pub position_from : OrderedList ℕ → (header left iterator : ℕ) → Run ℕ
position_from index header zero iterator = ok iterator
position_from index header (suc left) iterator = do
  item ← get_item_at_index iterator index
  let rest = position_from index header left (iterator + 1)
  if item == header then ok iterator else rest
