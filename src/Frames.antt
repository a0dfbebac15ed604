-- ===== src/Frames.antt =====
-- The physical frame allocator of kernel/paging.cpp (kernel/PageFrameAllocator.cpp holds the same
-- functions): a bitmap with a bit for each 4 KiB frame, and the pages that own frames.
pub mod Bitmap
pub mod Search
pub mod Alloc
pub mod Free
pub mod Owners
mod Tests
use loris.Base.{
  ℕ, zero, suc, ◌+◌, ◌*◌, ◌/◌, ◌%◌, ◌^◌, ◌-◌, bit_and, bit_or, Bool, Option, none, some, List, ◌==◌,
  if◌then◌else◌, get_elem?, get_or, set, length, u32, not32, ◌<<<◌, Run, ok, undefined, halt, ◌>>=◌,
  from_option, bit,
}

-- `struct Page`, a page table entry: its bit fields, one bit each, `Unused` of 7 and `Frame` of 20.
pub record Page : Type 0 where
  pub present : ℕ
  pub read_write : ℕ
  pub user : ℕ
  pub accessed : ℕ
  pub dirty : ℕ
  pub unused : ℕ
  pub frame : ℕ

-- The globals `nframes` and `frames`. The array ends with the list: an access beyond it is
-- undefined.
pub record Frames : Type 0 where
  pub nframes : ℕ
  pub words : List ℕ

unfoldable pub set_frame : ℕ → Frames → Run Frames
set_frame frame_addr s =
    let frame = frame_addr / 0x1000 in
    let idx = frame / 32 in
    let off = frame % 32 in
    do
      word ← from_option (get_elem? s.words idx)
      ok (record s { words = set s.words idx (bit_or word (1 <<< off)) })

unfoldable pub clear_frame : ℕ → Frames → Run Frames
clear_frame frame_addr s =
    let frame = frame_addr / 0x1000 in
    let idx = frame / 32 in
    let off = frame % 32 in
    do
      word ← from_option (get_elem? s.words idx)
      ok (record s { words = set s.words idx (bit_and word (not32 (1 <<< off))) })

unfoldable pub test_frame : ℕ → Frames → Run ℕ
test_frame frame_addr s =
    let frame = frame_addr / 0x1000 in
    let idx = frame / 32 in
    let off = frame % 32 in
    do word ← from_option (get_elem? s.words idx); ok (bit_and word (1 <<< off))

-- The inner loop of `first_frame` at `j`, with `32 - j` rounds left.
unfoldable pub scan_word : ℕ → ℕ → ℕ → Option ℕ
scan_word zero j word = none
scan_word (suc left) j word =
    let rest = scan_word left (j + 1) word in if bit_and word (1 <<< j) == 0 then some j else rest

-- The outer loop at `i`. Behind it the function ends with no `return`.
unfoldable pub first_frame_from : ℕ → ℕ → List ℕ → Run ℕ
first_frame_from zero i words = undefined
first_frame_from (suc left) i words = do
  word ← from_option (get_elem? words i)
  let rest = first_frame_from left (i + 1) words
  if word == 0xFFFFFFFF
      then rest
      else elim (scan_word 32 0 word) [ some j ↦ ok (i * 4 * 8 + j) | none ↦ rest ]

unfoldable pub first_frame : Frames → Run ℕ
first_frame s = first_frame_from (s.nframes / 32) 0 s.words

-- `true` is 1 in a bit field.
abbrev pub flag : Bool → ℕ
flag b = if b then 1 else 0

unfoldable pub alloc_frame : (is_kernel is_writable : Bool) → Page → Frames → Run (Page × Frames)
alloc_frame is_kernel is_writable page s =
    if page.frame == 0
    then (do
      idx ← first_frame s
      if idx == 2 ^ 32 - 1 then halt else (do
        s' ← set_frame (u32 (idx * 0x1000)) s
        ok (
          record page {
            present = 1;
            read_write = flag is_writable;
            user = if is_kernel then 0 else 1;
            frame = idx % 2 ^ 20;
          },
          s',
        )))
    else ok (page, s)

unfoldable pub free_frame : Page → Frames → Run (Page × Frames)
free_frame page s =
    if page.frame == 0
    then ok (page, s)
    else do s' ← clear_frame page.frame s; ok (record page { frame = 0 }, s')
