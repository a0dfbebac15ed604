-- ===== src/Heap/Free.antt =====
-- `Free`.
use loris.Base.{
  ℕ, Bool, true, false, ◌&&◌, not, Memory, Run, ok, ◌>>=◌, add32, sub32, ltb, ◌==◌, if◌then◌else◌,
}
use loris.OrderedList.{OrderedList, insert, remove}
use loris.Heap.Layout.{
  heap_magic, header_size, footer_size, magic_of, is_hole_of, size_of, footer_header_of,
  set_is_hole, set_size, set_footer_header, put_footer,
}
use loris.Heap.Index.{header_less_than, position_from}
use loris.Heap.Resize.{Pager, World, contract}

-- The local variables of `Free` that its steps hand on.
pub record Freeing : Type 0 where
  pub memory : Memory
  pub header : ℕ
  pub footer : ℕ
  pub do_add : Bool

-- "Unify left".
unfoldable pub unify_left : Freeing → Freeing
unify_left f =
    let test_footer = sub32 f.header footer_size in
    let left = footer_header_of f.memory test_footer in
    let m = set_footer_header f.footer left f.memory in
    if (magic_of f.memory test_footer == heap_magic) && (is_hole_of f.memory left == 1)
    then record {
      memory = set_size left (add32 (size_of m left) (size_of f.memory f.header)) m;
      header = left;
      footer = f.footer;
      do_add = false;
    }
    else f

-- "Unify right": the header behind the footer, whose hole is joined and taken out of the index.
unfoldable pub unify_right : Freeing → OrderedList ℕ → Run (Freeing × OrderedList ℕ)
unify_right f index =
    let test_header = add32 f.footer footer_size in
    let joined = add32 (size_of f.memory f.header) (size_of f.memory test_header) in
    let m = set_size f.header joined f.memory in
    if (magic_of f.memory test_header == heap_magic) && not (is_hole_of f.memory test_header == 0)
    then (do
      iterator ← position_from index test_header index.size 0
      index' ← remove iterator index
      ok (
        record f {
          memory = m;
          footer = sub32 (add32 test_header (size_of m test_header)) footer_size;
        },
        index',
      ))
    else ok (f, index)

module _ (pager : Pager) where
  -- The branch for a hole at the end of the heap. `test_header` is the one of "unify right".
  unfoldable pub shrink : (header test_header : ℕ) → World pager → Run (World pager)
  shrink header test_header w =
      let old_length = sub32 w.heap.end_address w.heap.start_address in
      do
        (new_length, w₁) ← contract pager (sub32 header w.heap.start_address) w
        let left = sub32 (size_of w₁.memory header) (sub32 old_length new_length)
        let m =
            put_footer (sub32 (add32 header left) footer_size) header
              (set_size header left w₁.memory)
        if ltb 0 left then ok (record w₁ { memory = m }) else (do
          iterator ← position_from w₁.heap.index test_header w₁.heap.index.size 0
          if ltb iterator w₁.heap.index.size
              then (do
                index ← remove iterator w₁.heap.index
                ok (record w₁ { heap = record w₁.heap { index = index } }))
              else ok w₁)

  -- `Free` from "unify right" on.
  unfoldable pub free_rest : Freeing → World pager → Run (World pager)
  free_rest f w =
      let test_header = add32 f.footer footer_size in
      do
        (f', index) ← unify_right f w.heap.index
        let w₁ = record w { heap = record w.heap { index = index }; memory = f'.memory }
        w₂ ←
            (if add32 f'.footer footer_size == w.heap.end_address
              then shrink f'.header test_header w₁
              else ok w₁)
        if f'.do_add
            then (do
              index' ← insert (header_less_than w₂.memory) f'.header w₂.heap.index
              ok (record w₂ { heap = record w₂.heap { index = index' } }))
            else ok w₂

  unfoldable pub free : (p : ℕ) → World pager → Run (World pager)
  free p w =
      let header = sub32 p header_size in
      let f : Freeing = record {
        memory = set_is_hole header 1 w.memory;
        header = header;
        footer = sub32 (add32 header (size_of w.memory header)) footer_size;
        do_add = true;
      } in
      if p == 0 then ok w else free_rest (unify_left f) w
