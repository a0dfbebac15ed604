-- ===== src/Heap/Alloc.antt =====
-- The constructor of class Heap and `Alloc`.
use loris.Base.{
  ℕ, zero, suc, ◌+◌, ◌-◌, ◌*◌, bit_and, Bool, ◌&&◌, not, Memory, Run, ok, halt, ◌>>=◌, add32, sub32,
  ltb, ◌==◌, if◌then◌else◌, ◌^◌, leb, write32, undefined,
}
use loris.Strings.{memset}
use loris.OrderedList.{OrderedList, ordered_list, get_item_at_index, insert, remove}
use loris.Heap.Layout.{
  Heap, heap_index_size, heap_magic, page_size, header_size, footer_size, size_of, set_size,
  set_magic, set_is_hole, put_header, put_footer,
}
use loris.Heap.Index.{not_found, header_less_than, find_smallest_hole, endmost_from}
use loris.Heap.Resize.{Pager, World, expand}

-- Where the constructor puts the first hole: behind the array of the index. The test
-- `start & 0xFFFFF000 != 0` is `start & 1`.
unfoldable pub data_start : ℕ → ℕ
data_start start =
    let behind = add32 start (4 * heap_index_size) in
    if bit_and behind 1 == 0 then behind else add32 (bit_and behind 0xFFFFF000) page_size

-- The constructor. `old` holds what stood in the members before: `m_supervisor` and `m_readonly`
-- are the parameters' own names in the assignments, and `m_maxAddress` is not assigned. The constructor
-- of the index clears its array at `start`, which is undefined where the array leaves the address space,
-- and `Insert` writes the first element to it.
unfoldable pub construct :
    (start end_addr max : ℕ) (m_supervisor m_readonly : Bool) (old : Heap)
    → Memory
    → Run (Heap × Memory)
construct start end_addr max m_supervisor m_readonly old m =
    if leb (start + 4 * heap_index_size) (2 ^ 32)
    then (let hole = data_start start in
        let cleared = memset start 0 (4 * heap_index_size) m in
        let m' =
          set_is_hole hole 1
            (set_magic hole heap_magic (set_size hole (sub32 end_addr hole) cleared)) in
        do
          index ← insert (header_less_than m') hole (ordered_list 0 heap_index_size)
          ok (
            record old { index = index; start_address = max; end_address = end_addr },
            write32 m' start hole,
          ))
    else undefined

module _ (pager : Pager) where
  -- The branch of `Alloc` for a heap without a fitting hole, up to its recursive call.
  unfoldable pub grow : (new_size : ℕ) → World pager → Run (World pager)
  grow new_size w =
      let old_length = sub32 w.heap.end_address w.heap.start_address in
      let old_end = w.heap.end_address in
      do
        w₁ ← expand pager (add32 old_length new_size) w
        let new_length = sub32 w₁.heap.end_address w₁.heap.start_address
        let grown = sub32 new_length old_length
        idx ← endmost_from w₁.heap.index w₁.heap.index.size 0 not_found 0
        if idx == not_found
            then (let m =
                  put_footer (sub32 (add32 old_end grown) footer_size) old_end
                    (put_header old_end 1 grown w₁.memory) in
                do
                  index ← insert (header_less_than m) old_end w₁.heap.index
                  ok (record w₁ { heap = record w₁.heap { index = index }; memory = m }))
            else (do
              header ← get_item_at_index idx w₁.heap.index
              let size = add32 (size_of w₁.memory header) grown
              let m =
                  put_footer (sub32 (add32 header size) footer_size) header
                    (set_size header size w₁.memory)
              ok (record w₁ { memory = m }))

  -- The end of `Alloc`: the block at `pos` with `size` bytes of data, and the hole behind it if
  -- `hole_size` leaves one. The result is the address of the data.
  unfoldable pub write_block :
      (pos size new_size hole_size : ℕ) (index : OrderedList ℕ)
      → World pager
      → Run (ℕ × World pager)
  write_block pos size new_size hole_size index w =
      let footer = add32 (add32 pos header_size) size in
      let m = put_footer footer pos (put_header pos 0 new_size w.memory) in
      let left = sub32 hole_size new_size in
      let data_address = add32 pos header_size in
      if ltb 0 left
      then (let hole = add32 footer footer_size in
          let m' = put_header hole 1 left m in
          let hole_footer = sub32 (add32 hole left) footer_size in
          let m'' =
            if ltb hole_footer w.heap.end_address then put_footer hole_footer hole m' else m' in
          do
            index' ← insert (header_less_than m'') hole index
            ok (data_address, record w { heap = record w.heap { index = index' }; memory = m'' }))
      else ok (data_address, record w { heap = record w.heap { index = index }; memory = m })

  -- `Alloc` from the hole at `iterator` on.
  unfoldable pub take_hole :
      (iterator size new_size : ℕ) (page_align : Bool) → World pager → Run (ℕ × World pager)
  take_hole iterator size new_size page_align w = do
    pos ← get_item_at_index iterator w.heap.index
    let hole_size = size_of w.memory pos
    let whole = ltb (sub32 hole_size new_size) (header_size + footer_size)
    let size' = if whole then add32 size (sub32 hole_size new_size) else size
    let new_size' = if whole then hole_size else new_size
    let offset = page_size - bit_and pos 0xFFF
    let new_location = sub32 (add32 pos offset) header_size
    let front = sub32 offset header_size
    let m = put_footer (sub32 new_location footer_size) pos (put_header pos 1 front w.memory)
    if page_align && not (bit_and pos 0xFFFFF000 == 0)
        then write_block new_location size' new_size' (sub32 hole_size (size_of m pos)) w.heap.index
            (record w { memory = m })
        else (do
          index ← remove iterator w.heap.index
          write_block pos size' new_size' hole_size index w)

  -- `Alloc`. Each round of fuel is a call; a call that grows the heap calls `Alloc` again.
  unfoldable pub alloc : (fuel size : ℕ) (page_align : Bool) → World pager → Run (ℕ × World pager)
  alloc zero size page_align w = halt
  alloc (suc fuel) size page_align w =
      let new_size = add32 size (header_size + footer_size) in
      let again = λ (w' : World pager). alloc fuel size page_align w' in
      do
        iterator ← find_smallest_hole new_size page_align w.memory w.heap.index
        if iterator == not_found
            then (do w' ← grow new_size w; again w')
            else take_hole iterator size new_size page_align w
