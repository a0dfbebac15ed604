-- ===== src/Heap/Sizes.antt =====
-- The sizes that `Expand` and `Contract` choose, and the pages that `Expand` maps.
use loris.Base.{
  ℕ, zero, suc, ◌+◌, ◌-◌, ◌*◌, ◌/◌, ◌%◌, ◌^◌, ◌≤◌, ◌<◌, ◌≡◌, refl, ap, arith, bit_and, bit_and-pow,
  bit_and_shift, bit_and_mask, true, false, not, Run, ok, ◌>>=◌, add32, sub32, ltb, ◌==◌,
  if◌then◌else◌,
}
use loris.Heap.Layout.{Heap, heap_min_size}
use loris.Heap.Resize.{
  Pager, World, expand_size, contract_size, expand_pages, expand, contract_pages, contract,
}

-- `Expand` rounds an odd size up to a page, and leaves an even size as it is: a heap that was
-- asked to grow to an even number of bytes ends in the middle of a page.
pub expand_size_lem :
    (n : ℕ) → n < 0xFFFFF000 → expand_size n ≡ (if n % 2 == 0 then n else (n / 4096 + 1) * 4096)
unfolding expand_size
expand_size_lem n h =
    let low : bit_and n 1 ≡ n % 2 = omega (arith, bit_and-pow 0 n) in
    let high : bit_and n 0xFFFFF000 ≡ n / 4096 * 4096 =
      omega (arith, bit_and_shift 12 n 0xFFFFF, bit_and_mask 20 (n / 2 ^ 12)) in
    ground arith

-- `Contract` chooses its argument, or the minimum where that is more; but wherever bit 12 of the
-- argument is set it goes down to the minimum, however much of the heap is in use.
pub contract_size_lem :
    (n : ℕ)
    → contract_size n ≡ (
        if n / 4096 % 2 == 1
        then heap_min_size
        else if ltb n heap_min_size
        then heap_min_size
        else n)
unfolding contract_size
contract_size_lem n =
    let test : bit_and n 0x1000 ≡ n / 4096 % 2 * 4096 =
      omega (arith, bit_and_shift 12 n 1, bit_and_mask 1 (n / 2 ^ 12)) in
    ground arith

contract_size-ge_min : (n : ℕ) → heap_min_size ≤ contract_size n
contract_size-ge_min n = ground (arith, contract_size_lem n)

module _ (pager : Pager) where
  open pager use {State, map_page, unmap_page}

  -- `count` pages from `start + i` on, each with the flags of the heap.
  unfoldable pub map_pages : (count i : ℕ) → Heap → State → Run State
  map_pages zero i heap p = ok p
  map_pages (suc count) i heap p =
      map_page (add32 heap.start_address i) heap.supervisor (not heap.readonly) p
      >>= map_pages count (i + 4096) heap

  expand_pages-map_pages :
      (fuel count i n : ℕ) (heap : Heap) (p : State)
      → count < fuel
      → n ≤ 0xFFFFF000
      → i < n + 4096
      → count ≡ (n - i + 4095) / 4096
      → expand_pages pager fuel i n heap p ≡ map_pages count i heap p
  unfolding expand_pages map_pages
  expand_pages-map_pages zero count i n heap p h small below e = elim h [ ]
  expand_pages-map_pages (suc fuel) zero i n heap p h small below e =
      let done : ltb i n ≡ false = ground arith in rw done
  expand_pages-map_pages (suc fuel) (suc count) i n heap p h small below e =
      let more : ltb i n ≡ true = ground arith in
      let next : add32 i 4096 ≡ i + 4096 = ground arith in
      let ih : (q : State)
          → expand_pages pager fuel (i + 4096) n heap q ≡ map_pages count (i + 4096) heap q =
        λ q.
          expand_pages-map_pages fuel count (i + 4096) n heap q (omega arith) small (ground arith)
            (ground arith) in
      rw (more, next) (simp ih)

  -- `Expand` to a size that does not wrap ends its loop: it maps the pages from the old end up to
  -- the new size, one each 4096 bytes and each once, and it moves the end of the heap.
  pub expand-map_pages :
      (n : ℕ) (w : World pager)
      → expand_size n ≤ 0xFFFFF000
      → let old = sub32 w.heap.end_address w.heap.start_address in
        old < expand_size n + 4096
        → expand pager n w ≡ (
            map_pages ((expand_size n - old + 4095) / 4096) old w.heap w.pages >>= λ pages.
            ok (record w {
              heap = record w.heap { end_address = add32 w.heap.start_address (expand_size n) };
              pages = pages;
            }))
  unfolding expand
  expand-map_pages n w small below =
      ap
        (λ m. m >>= λ pages. ok (record w {
          heap = record w.heap { end_address = add32 w.heap.start_address (expand_size n) };
          pages = pages;
        }))
        (expand_pages-map_pages (2 ^ 20) ((expand_size n - old + 4095) / 4096) old (expand_size n)
          w.heap w.pages (omega arith) small below refl)
    where
      old : ℕ
      old = sub32 w.heap.end_address w.heap.start_address

  -- `count` pages from `start + i` down.
  unfoldable pub unmap_pages : (count i : ℕ) → Heap → State → Run State
  unmap_pages zero i heap p = ok p
  unmap_pages (suc count) i heap p =
      unmap_page (add32 heap.start_address i) p >>= unmap_pages count (i - 4096) heap

  contract_pages-unmap_pages :
      (fuel count i n : ℕ) (heap : Heap) (p : State)
      → count < fuel
      → i < 2 ^ 32
      → 4096 ≤ n
      → count ≡ (i - n + 4095) / 4096
      → contract_pages pager fuel i n heap p ≡ unmap_pages count i heap p
  unfolding contract_pages unmap_pages
  contract_pages-unmap_pages zero count i n heap p h word above e = elim h [ ]
  contract_pages-unmap_pages (suc fuel) zero i n heap p h word above e =
      let done : ltb n i ≡ false = ground arith in rw done
  contract_pages-unmap_pages (suc fuel) (suc count) i n heap p h word above e =
      let more : ltb n i ≡ true = ground arith in
      let lower : sub32 i 4096 ≡ i - 4096 = ground arith in
      let ih : (q : State)
          → contract_pages pager fuel (i - 4096) n heap q ≡ unmap_pages count (i - 4096) heap q =
        λ q.
          contract_pages-unmap_pages fuel count (i - 4096) n heap q (omega arith) (omega arith)
            above (ground arith) in
      rw (more, lower) (simp ih)

  -- `Contract` ends its loop on every argument: it unmaps the pages from the old end down to the size that
  -- it chose, one each 4096 bytes and each once, returns this size and moves the end of the heap there.
  pub contract-unmap_pages :
      (n : ℕ) (w : World pager)
      → let last = sub32 (sub32 w.heap.end_address w.heap.start_address) 4096 in
        contract pager n w ≡ (
          unmap_pages ((last - contract_size n + 4095) / 4096) last w.heap w.pages >>= λ pages. ok (
            contract_size n,
            record w {
              heap = record w.heap { end_address = add32 w.heap.start_address (contract_size n) };
              pages = pages;
            },
          ))
  unfolding contract
  contract-unmap_pages n w =
      let last = sub32 (sub32 w.heap.end_address w.heap.start_address) 4096 in
      ap
        (λ m. m >>= λ pages. ok (
          contract_size n,
          record w {
            heap = record w.heap { end_address = add32 w.heap.start_address (contract_size n) };
            pages = pages;
          },
        ))
        (contract_pages-unmap_pages (2 ^ 20) ((last - contract_size n + 4095) / 4096) last
          (contract_size n) w.heap w.pages (omega (arith, contract_size-ge_min n)) (omega arith)
          (omega (arith, contract_size-ge_min n)) refl)
