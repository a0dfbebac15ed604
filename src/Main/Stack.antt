-- ===== src/Main/Stack.antt =====
-- `move_stack` of kernel/Task.cpp, up to the endless loop behind its message. Its call in
-- `initialise_tasking` is commented out.
use loris.Base.{
  ℕ, zero, suc, ◌+◌, ◌-◌, ◌/◌, ◌≤◌, ◌<◌, ◌^◌, ◌≡◌, arith, true, false, [], ◌∷◌, Run, ok, halt,
  ◌>>=◌, sub32, leb, if◌then◌else◌,
}
use loris.Frames.{alloc_frame}
use loris.Paging.{Platform, Machine, load_page, store_page, get_page}
use loris.Printf.{printf}
use loris.Main.{Kernel}

module _ {S : Type 0} (platform : Platform S) where
  -- `alloc_frame(get_page(i, true, current_directory), false, true)`.
  unfoldable stack_page : (i : ℕ) → Machine S → Run (Machine S)
  stack_page i s = do
    (page, s') ← get_page platform i true s.current_directory s
    (p, frames') ← alloc_frame false true (load_page s'.memory page) s'.frames
    ok (record s' { memory = store_page page p s'.memory; frames = frames' })

  -- The loop over the pages of the new stack, from its start down to `low`. `i` takes each of its 2 ^ 20
  -- values once before they repeat.
  unfoldable stack_pages : (fuel i low : ℕ) → Machine S → Run (Machine S)
  stack_pages zero i low s = halt
  stack_pages (suc fuel) i low s =
      let rest = λ (s' : Machine S). stack_pages fuel (sub32 i 0x1000) low s' in
      if leb low i then (do s' ← stack_page i s; rest s') else ok s

  unfoldable move_stack : (new_stack_start size : ℕ) → Kernel S → Run (Kernel S)
  move_stack new_stack_start size k = do
    machine ← stack_pages (2 ^ 20) new_stack_start (sub32 new_stack_start size) k.machine
    (written, terminal) ← printf 4 (b't' ∷ b'e' ∷ b's' ∷ b't' ∷ []) [] k.terminal
    halt

  -- `count` pages from `i` down.
  unfoldable pages_down : (count i : ℕ) → Machine S → Run (Machine S)
  pages_down zero i s = ok s
  pages_down (suc count) i s = stack_page i s >>= pages_down count (i - 0x1000)

  stack_pages_count :
      (fuel count i low : ℕ) (s : Machine S)
      → count < fuel
      → i < 2 ^ 32
      → 0x1000 ≤ low
      → low ≤ i + 0x1000
      → count ≡ (i + 0x1000 - low) / 0x1000
      → stack_pages fuel i low s ≡ pages_down count i s
  unfolding stack_pages pages_down
  stack_pages_count zero count i low s h word above below e = elim h [ ]
  stack_pages_count (suc fuel) zero i low s h word above below e =
      let done : leb low i ≡ false = ground arith in rw done
  stack_pages_count (suc fuel) (suc count) i low s h word above below e =
      let more : leb low i ≡ true = ground arith in
      let next : sub32 i 0x1000 ≡ i - 0x1000 = omega arith in
      let ih : (t : Machine S)
          → stack_pages fuel (i - 0x1000) low t ≡ pages_down count (i - 0x1000) t =
        λ t.
          stack_pages_count fuel count (i - 0x1000) low t (omega arith) (omega arith) above
            (omega arith) (ground arith) in
      rw (more, next) (simp ih)

  -- For a stack that ends above the first page, the loop ends, and it has given a frame to each page from
  -- the start of the stack down to its end, one for each 4096 bytes and each once.
  stack_pages-pages_down :
      (start size : ℕ) (s : Machine S)
      → size + 0x1000 ≤ start
      → start < 2 ^ 32
      → stack_pages (2 ^ 20) start (sub32 start size) s ≡ pages_down (size / 0x1000 + 1) start s
  stack_pages-pages_down start size s fits word =
      let low : sub32 start size ≡ start - size = omega arith in
      rw low (
        stack_pages_count (2 ^ 20) (size / 0x1000 + 1) start (start - size) s (omega arith) word
          (omega arith) (omega arith) (omega arith))
