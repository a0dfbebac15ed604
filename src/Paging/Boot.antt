-- ===== src/Paging/Boot.antt =====
-- `initialise_paging` of kernel/paging.cpp.
use loris.Base.{
  ℕ, zero, suc, ◌+◌, Bool, true, false, some, List, [], ◌∷◌, Memory, write32, Run, ok, halt, ◌>>=◌,
  add32, ltb,
}
use loris.Strings.{memset}
use loris.Frames.{alloc_frame}
use loris.Heap.Layout.{Heap}
use loris.Heap.Resize.{Pager}
use loris.Heap.Alloc.{construct}
use loris.Kmalloc.{Allocator}
use loris.Paging.{
  Platform, Machine, load_page, store_page, physical_address, switch_page_directory, get_page,
  clone_directory,
}
use loris.Paging.Kernel.{kernel_platform}

abbrev pub kheap_start : ℕ
kheap_start = 0xC0000000

abbrev pub kheap_initial_size : ℕ
kheap_initial_size = 0x100000

-- What `initialise_paging` uses beyond the paging code: the global `placement_address`, and the
-- construction of the heap at `kheap`.
pub record Boot (S : Type 0) : Type 0 where
  pub platform : Platform S
  pub placement_address : S → ℕ
  pub construct_heap : (start end_addr max : ℕ) (supervisor readonly : Bool) → S → Run S

-- The array of `n` zeros.
unfoldable pub cleared_words : ℕ → List ℕ
cleared_words zero = []
cleared_words (suc n) = 0 ∷ cleared_words n

module _ {S : Type 0} (boot : Boot S) where
  -- `alloc_frame(page, false, false)` on a page in memory.
  unfoldable pub alloc_frame_at : (page : ℕ) → Machine S → Run (Machine S)
  alloc_frame_at page s = do
    (p, frames') ← alloc_frame false false (load_page s.memory page) s.frames
    ok (record s { memory = store_page page p s.memory; frames = frames' })

  -- The two loops over the pages of the heap at `i`, with `left` rounds left.
  unfoldable pub make_heap_tables : (left i : ℕ) → Machine S → Run (Machine S)
  make_heap_tables zero i s = ok s
  make_heap_tables (suc left) i s = do
    (page, s') ← get_page boot.platform i true s.kernel_directory s
    make_heap_tables left (i + 0x1000) s'

  unfoldable pub alloc_heap_frames : (left i : ℕ) → Machine S → Run (Machine S)
  alloc_heap_frames zero i s = ok s
  alloc_heap_frames (suc left) i s = do
    (page, s') ← get_page boot.platform i true s.kernel_directory s
    s'' ← alloc_frame_at page s'
    alloc_heap_frames left (i + 0x1000) s''

  -- The loop of the identity map at `i`. Each round may move `placement_address` on.
  unfoldable pub identity_map : (fuel i : ℕ) → Machine S → Run (Machine S)
  identity_map zero i s = halt
  identity_map (suc fuel) i s =
      elim (ltb i (add32 (boot.placement_address s.platform_state) 0x1000)) [
        | true ↦ do
          (page, s') ← get_page boot.platform i true s.kernel_directory s
          s'' ← alloc_frame_at page s'
          identity_map fuel (i + 0x1000) s''
        | false ↦ ok s
      ]

  -- `initialise_paging` up to the first `switch_page_directory`. The bitmap gets 128 bytes, which are 32
  -- words, for its 4096 frames.
  unfoldable pub map_kernel : (fuel : ℕ) → Machine S → Run (Machine S)
  map_kernel fuel s = do
    (bitmap, none_written, rest) ← boot.platform.kmalloc 128 false false s.platform_state
    (dir, none_written', rest') ← boot.platform.kmalloc 8196 true false rest
    let s₁ : Machine S = record s {
      frames = record { nframes = 0x1000; words = cleared_words 32 };
      kernel_directory = dir;
      memory = write32 (memset dir 0 8196 s.memory) (physical_address dir) (add32 dir 4096);
      platform_state = rest';
    }
    s₂ ← make_heap_tables 0x100 kheap_start s₁
    s₃ ← identity_map fuel 0 s₂
    alloc_heap_frames 0x100 kheap_start s₃

  -- The rest of `initialise_paging`. `sizeof(Heap)` is 32.
  unfoldable pub enter_kernel_directory : Machine S → Run (Machine S)
  enter_kernel_directory s =
      let s₁ = switch_page_directory s.kernel_directory s in
      do
        (kheap, none_written, rest) ← boot.platform.kmalloc 32 false false s₁.platform_state
        rest' ←
            boot.construct_heap kheap_start (kheap_start + kheap_initial_size) 0xCFFFF000 false
              false rest
        (clone, s₂) ←
            clone_directory boot.platform s₁.kernel_directory (record s₁ { platform_state = rest' })
        ok (switch_page_directory clone s₂)

  unfoldable pub initialise_paging : (fuel : ℕ) → Machine S → Run (Machine S)
  initialise_paging fuel s = do s' ← map_kernel fuel s; enter_kernel_directory s'

module _ (pager : Pager) (fuel : ℕ)
    (copy : (src destination : ℕ) → Allocator pager → Allocator pager) (old : Heap) (m : Memory)
    (pages : pager.State) where
  -- On the kernel's own kmalloc. `old` is what stood in the memory of the new heap object, `m` and
  -- `pages` are the memory of its blocks and the pages that it will grow by.
  unfoldable pub kernel_boot : Boot (Allocator pager)
  kernel_boot = record {
    platform = kernel_platform pager fuel copy;
    placement_address = λ a. a.placement_address;
    construct_heap = λ start end_addr max supervisor readonly a. do
      (heap, m') ← construct start end_addr max supervisor readonly old m
      ok (record a { kheap = some (record { heap = heap; memory = m'; pages = pages }) });
  }
