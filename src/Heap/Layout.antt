-- ===== src/Heap/Layout.antt =====
-- `struct Header` and `struct Footer` of kernel/Heap.h as they lie in memory, and the members of
-- class Heap.
use loris.Base.{ℕ, ◌+◌, Bool, Memory, write, read32, write32}
use loris.OrderedList.{OrderedList}

abbrev pub heap_index_size : ℕ
heap_index_size = 0x20000

abbrev pub heap_magic : ℕ
heap_magic = 0x12345678

abbrev pub heap_min_size : ℕ
heap_min_size = 0x70000

abbrev pub page_size : ℕ
page_size = 0x1000

-- sizeof(Header): `magic` at 0, `is_hole` at 4, padding, `size` at 8.
abbrev pub header_size : ℕ
header_size = 12

-- sizeof(Footer): `magic` at 0, `header` at 4.
abbrev pub footer_size : ℕ
footer_size = 8

unfoldable pub magic_of : Memory → ℕ → ℕ
magic_of m h = read32 m h

unfoldable pub is_hole_of : Memory → ℕ → ℕ
is_hole_of m h = m (h + 4)

unfoldable pub size_of : Memory → ℕ → ℕ
size_of m h = read32 m (h + 8)

unfoldable pub footer_header_of : Memory → ℕ → ℕ
footer_header_of m f = read32 m (f + 4)

unfoldable pub set_magic : ℕ → ℕ → Memory → Memory
set_magic h v m = write32 m h v

unfoldable pub set_is_hole : ℕ → ℕ → Memory → Memory
set_is_hole h v m = write m (h + 4) v

unfoldable pub set_size : ℕ → ℕ → Memory → Memory
set_size h v m = write32 m (h + 8) v

unfoldable pub set_footer_header : ℕ → ℕ → Memory → Memory
set_footer_header f v m = write32 m (f + 4) v

-- The three members of a header, and the two of a footer, as the code sets them together.
abbrev pub put_header : (h hole size : ℕ) → Memory → Memory
put_header h hole size m = set_size h size (set_is_hole h hole (set_magic h heap_magic m))

abbrev pub put_footer : (f header : ℕ) → Memory → Memory
put_footer f header m = set_footer_header f header (set_magic f heap_magic m)

-- The members of class Heap. The array of the index is kept apart from the memory of the blocks.
pub record Heap : Type 0 where
  pub index : OrderedList ℕ
  pub start_address : ℕ
  pub end_address : ℕ
  pub max_address : ℕ
  pub supervisor : Bool
  pub readonly : Bool
