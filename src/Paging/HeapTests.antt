-- ===== src/Paging/HeapTests.antt =====
-- Heaps that end where the kernel's own heap does, on the paging code: one without holes that grows, one whose
-- last hole has a block behind it, and one whose last block is freed.
use loris.Base.{
  ℕ, ◌+◌, ◌≤◌, ◌<◌, ◌≡◌, refl, arith, ◌∷◌, [], Memory, false, ok, inl, read32, write32, none,
}
use loris.OrderedList.{OrderedList}
use loris.OrderedList.Spec.{contents, insert_sorted}
use loris.Frames.{
  set_frame, clear_frame, scan_word, first_frame_from, first_frame, alloc_frame, free_frame,
}
use loris.Heap.Layout.{magic_of, set_magic, set_is_hole, set_size, set_footer_header}
use loris.Heap.Index.{header_less_than}
use loris.Heap.Free.{free}
use loris.Heap.FreeLast.{free_last_dangling}
use loris.Heap.Resize.{Pager, World, expand_size}
use loris.Heap.Alloc.{alloc}
use loris.Heap.Sizes.{map_pages, unmap_pages}
use loris.Heap.Chunks.{IsChunk, chunk_memory, chunk_memory-IsChunk}
use loris.Heap.Blocks.{IsHeader}
use loris.Heap.Grow.{CanGrow}
use loris.Heap.GrowAlloc.{alloc_grows}
use loris.Kmalloc.{Allocator}
use loris.Paging.{Machine, load_page, store_page, get_page}
use loris.Paging.Boot.{cleared_words}
use loris.Paging.Kernel.{kernel_platform}
use loris.Paging.HeapPages.{map_heap_page, unmap_heap_page, heap_pager}

abbrev no_pages : Pager
no_pages = record { State = ℕ; map_page = λ a k w p. ok p; unmap_page = λ a p. ok p }

abbrev pager : Pager
pager = heap_pager (kernel_platform no_pages 1 (λ src destination a. a))

-- A kernel directory at 0x10000 that has a table at 0x20000 for the addresses of the heap. The page
-- behind the end of the heap has the frame 3 where `entry` says so.
abbrev machine : (entry : ℕ) → Machine (Allocator no_pages)
machine entry = record {
  memory = write32 (write32 (λ _. 0) 0x10C00 0x20000) 0x20400 entry;
  frames = record { nframes = 4096; words = 0x17 ∷ cleared_words 31 };
  kernel_directory = 0x10000;
  current_directory = 0x10000;
  cr0 = 1;
  cr3 = 0;
  platform_state = record { placement_address = 0x100010; kheap = none };
}

abbrev world : (index : OrderedList ℕ) → Memory → World pager
world index m = record {
  heap = record {
    index = index;
    start_address = 0xCFFFF000;
    end_address = 0xC0100000;
    max_address = 0;
    supervisor = false;
    readonly = false;
  };
  memory = m;
  pages = machine 0;
}

-- The page behind the end of the heap got the frame 3.
abbrev mapped : Machine (Allocator no_pages)
mapped = record (machine 0) {
  memory = write32 (machine 0).memory 0x20400 0x3007;
  frames = record { nframes = 4096; words = 0x1F ∷ cleared_words 31 };
}

mapped_lem :
    map_pages pager 1 0xF0101000
      (world (record { elements = []; size = 0; max_size = 0 }) (λ _. 0)).heap
      (machine 0)
    ≡ ok mapped
unfolding map_pages map_heap_page get_page alloc_frame first_frame first_frame_from scan_word
    set_frame load_page store_page read32 write32 cleared_words
mapped_lem = refl

can_grow : (index : OrderedList ℕ) (m : Memory) → CanGrow pager (world index m) 121
unfolding map_pages map_heap_page get_page alloc_frame first_frame first_frame_from scan_word
    set_frame load_page store_page read32 write32 cleared_words expand_size
can_grow index m = record {
  start_fits = omega arith;
  length_fits = omega arith;
  room = omega arith;
  pages = mapped;
  mapped = refl;
}

alloc_grows_example :
    (w' : World pager) × (b : ℕ) × (alloc pager 2 101 false
        (world (record { elements = 0 ∷ 0 ∷ 0 ∷ []; size = 0; max_size = 3 }) (λ _. 0))
      ≡ ok (0xC0100000 + 12, w'))
    × (121 ≤ b)
    × IsChunk w'.memory 0xC0100000 0 b
    × ((x : ℕ) → x < 0xC0100000 → w'.memory x ≡ 0)
alloc_grows_example =
    alloc_grows pager 0 101
      (world (record { elements = 0 ∷ 0 ∷ 0 ∷ []; size = 0; max_size = 3 }) (λ _. 0))
      (can_grow (record { elements = 0 ∷ 0 ∷ 0 ∷ []; size = 0; max_size = 3 }) (λ _. 0))
      (record { capacity = refl; fits = omega arith; in_width = omega arith }) refl (omega arith)

-- A hole of 30 bytes at 0xC0080000, and a block of 50 behind it.
abbrev hole_memory : Memory
hole_memory = chunk_memory 0xC0080000 1 30 (λ _. 0)

abbrev memory : Memory
memory = chunk_memory 0xC008001E 0 50 hole_memory

abbrev one_hole : OrderedList ℕ
one_hole = record { elements = 0xC0080000 ∷ 0 ∷ 0 ∷ []; size = 1; max_size = 3 }

-- A block of 8192 bytes whose last page is the one behind the kernel's own heap.
abbrev last_world : World pager
last_world = record {
  heap = record (world one_hole memory).heap {
    index = record { elements = 0 ∷ 0 ∷ 0 ∷ []; size = 0; max_size = 3 };
    end_address = 0xC0101000;
  };
  memory = chunk_memory 0xC00FF000 0 0x2000 (λ _. 0);
  pages = machine 0x3007;
}

-- The page has no frame any more.
abbrev unmapped : Machine (Allocator no_pages)
unmapped = record (machine 0x3007) {
  memory = write32 (machine 0x3007).memory 0x20400 7;
  frames = record { nframes = 4096; words = 0x16 ∷ cleared_words 31 };
}

unmapped_lem : unmap_pages pager 1 0xF0101000 last_world.heap (machine 0x3007) ≡ ok unmapped
unfolding unmap_pages unmap_heap_page get_page free_frame clear_frame load_page store_page read32
    write32 cleared_words
unmapped_lem = refl

last_left : magic_of last_world.memory 0xC00FEFF8 ≡ 0
unfolding magic_of set_magic set_is_hole set_size set_footer_header read32 write32
last_left = refl

last_right : magic_of last_world.memory 0xC0101000 ≡ 0
unfolding magic_of set_magic set_is_hole set_size set_footer_header read32 write32
last_right = refl

free_last_dangling_example :
    (w' : World pager) × (free pager 0xC00FF00C last_world ≡ ok w')
    × (w'.heap.end_address ≡ 0xC00FF000)
    × (w'.pages ≡ unmapped)
    × IsHeader w'.memory 0xC00FF000 1 0x2000
    × (contents w'.heap.index ≡ insert_sorted (header_less_than w'.memory) 0xC00FF000 [])
free_last_dangling_example =
    free_last_dangling pager last_world 0xC00FF000 0x2000
      (record {
        block = chunk_memory-IsChunk (λ _. 0) 0xC00FF000 0 0x2000 (omega arith) (omega arith);
        large = omega arith;
        above = omega arith;
        start_fits = omega arith;
        in_line = omega arith;
        ends = refl;
        word = omega arith;
        left_busy = inl (omega (arith, last_left));
        right_busy = inl (omega (arith, last_right));
        index_wf = record { capacity = refl; fits = omega arith; in_width = omega arith };
        slot = omega arith;
      })
      unmapped (omega arith) (omega arith) (λ j h. elim h [ ]) unmapped_lem
