-- ===== src/Heap/Tests.antt =====
-- A heap of 100 bytes at 4096, one hole, over pages that are only counted.
use loris.Base.{
  false, ◌≢◌, inl, ℕ, ◌+◌, ◌-◌, ◌≤◌, ◌<◌, ◌≡◌, refl, ◌⊎◌, arith, ◌∷◌, [], Memory, true, false, ok,
  read32, write32,
}
use loris.OrderedList.{OrderedList, get_item_at_index}
use loris.OrderedList.Spec.{contents, IsOrderedList, insert_sorted, erase_at}
use loris.Heap.Layout.{Heap, magic_of, size_of, set_magic, set_is_hole, set_size, set_footer_header}
use loris.Heap.Index.{not_found, hole_fits, find_hole_from, find_smallest_hole, header_less_than}
use loris.Heap.Resize.{Pager, World}
use loris.Heap.Alloc.{alloc, construct, data_start}
use loris.Heap.Free.{free}
use loris.Heap.Tiling.{hole, IsTiled}
use loris.Heap.Construct.{construct-IsHeader}
use loris.Heap.Chunks.{IsChunk, chunk_memory, chunk_memory-IsChunk, chunk_outside, IsChunk-same}
use loris.Heap.BestFit.{hole_at, find_smallest_hole_best}
use loris.Heap.Blocks.{IsHeader, IsFooter}
use loris.Heap.Join.{free_join_right}
use loris.Heap.Fit.{FoundHole, alloc_split}

abbrev counter : Pager
counter = record { State = ℕ; map_page = λ a k w p. ok (p + 1); unmap_page = λ a p. ok (p - 1) }

abbrev memory : Memory
memory = chunk_memory 4096 1 100 (λ _. 0)

abbrev index : OrderedList ℕ
index = record { elements = 4096 ∷ 0 ∷ 0 ∷ []; size = 1; max_size = 3 }

abbrev world : World counter
world = record {
  heap = record {
    index = index;
    start_address = 4096;
    end_address = 4196;
    max_address = 0x10000;
    supervisor = true;
    readonly = false;
  };
  memory = memory;
  pages = 1;
}

index-IsOrderedList : IsOrderedList index
index-IsOrderedList = record { capacity = refl; fits = omega arith; in_width = omega arith }

hole-IsChunk : IsChunk memory 4096 1 100
hole-IsChunk = chunk_memory-IsChunk (λ _. 0) 4096 1 100 (omega arith) (omega arith)

found_hole :
    (size : ℕ)
    → find_smallest_hole (size + 20) false memory index ≡ ok 0
    → size ≤ 80
    → FoundHole counter world size 0
found_hole size found small = record {
  index_wf = index-IsOrderedList;
  slot = omega arith;
  in_use = omega arith;
  found = found;
  large = omega (arith, hole-IsChunk.header.size_is);
  word = omega (arith, hole-IsChunk.header.size_is);
}

find_run : find_smallest_hole 50 false memory index ≡ ok 0
unfolding find_smallest_hole find_hole_from hole_fits size_of set_magic set_is_hole set_size
    set_footer_header read32 write32 get_item_at_index
find_run = refl

find_run_exact : find_smallest_hole 90 false memory index ≡ ok 0
unfolding find_smallest_hole find_hole_from hole_fits size_of set_magic set_is_hole set_size
    set_footer_header read32 write32 get_item_at_index
find_run_exact = refl

alloc_split_example :
    (w' : World counter) × (alloc counter 1 30 false world ≡ ok (4108, w'))
    × IsChunk w'.memory 4096 0 50
    × IsChunk w'.memory 4146 1 (size_of memory 4096 - 50)
    × ((x : ℕ) → (x < 4096) ⊎ (4096 + size_of memory 4096 ≤ x) → w'.memory x ≡ memory x)
    × IsOrderedList w'.heap.index
    × (contents w'.heap.index ≡ insert_sorted (header_less_than w'.memory) 4146 [])
    × (w'.heap.index.size ≡ 1)
    × (w'.heap.index.max_size ≡ 3)
    × (w'.heap.end_address ≡ 4196)
unfolding erase_at
alloc_split_example =
    alloc_split counter world 30 0 0 (found_hole 30 find_run (omega arith))
      (omega (arith, hole-IsChunk.header.size_is)) (omega (arith, hole-IsChunk.header.size_is))

find_smallest_hole_best_example :
    ((find_smallest_hole 50 false memory index ≡ ok not_found)
      × ((j : ℕ) → j < 1 → size_of memory (hole_at index j) < 50))
    ⊎ ((r : ℕ) × (find_smallest_hole 50 false memory index ≡ ok r)
        × (r < 1)
        × (50 ≤ size_of memory (hole_at index r))
        × ((j : ℕ)
            → j < 1
            → 50 ≤ size_of memory (hole_at index j)
            → size_of memory (hole_at index r) ≤ size_of memory (hole_at index j)))
find_smallest_hole_best_example =
    find_smallest_hole_best 50 memory index index-IsOrderedList (tt, tt)

-- One block of 50 bytes at 4096 with nothing around it.
abbrev block_memory : Memory
block_memory = chunk_memory 4096 0 50 (λ _. 0)

block-IsChunk : IsChunk block_memory 4096 0 50
block-IsChunk = chunk_memory-IsChunk (λ _. 0) 4096 0 50 (omega arith) (omega arith)

block_left : magic_of block_memory 4088 ≡ 0
unfolding magic_of set_magic set_is_hole set_size set_footer_header read32 write32
block_left = refl

block_right : magic_of block_memory 4146 ≡ 0
unfolding magic_of set_magic set_is_hole set_size set_footer_header read32 write32
block_right = refl

-- The same block with a hole of 30 bytes behind it.
abbrev pair_memory : Memory
pair_memory = chunk_memory 4146 1 30 block_memory

abbrev pair_world : World counter
pair_world = record {
  heap = record world.heap {
    index = record { elements = 4146 ∷ 0 ∷ 0 ∷ []; size = 1; max_size = 3 };
  };
  memory = pair_memory;
  pages = 1;
}

pair_block-IsChunk : IsChunk pair_memory 4096 0 50
pair_block-IsChunk =
    IsChunk-same block_memory pair_memory 4096 0 50 (omega arith)
      (λ x p q. chunk_outside block_memory 4146 1 30 (omega arith) (omega arith) x (omega arith))
      block-IsChunk

pair_left : magic_of pair_memory 4088 ≡ 0
unfolding magic_of set_magic set_is_hole set_size set_footer_header read32 write32
pair_left = refl

free_join_right_example :
    (w' : World counter) × (free counter 4108 pair_world ≡ ok w')
    × IsHeader w'.memory 4096 1 80
    × ((x : ℕ) → x ≢ 4100 → (x < 4104) ⊎ (4108 ≤ x) → w'.memory x ≡ pair_memory x)
    × IsFooter w'.memory 4168 4146
    × IsOrderedList w'.heap.index
    × (contents w'.heap.index ≡ insert_sorted (header_less_than w'.memory) 4096 [])
unfolding erase_at
free_join_right_example =
    free_join_right counter pair_world 4096 50 30 0 pair_block-IsChunk
      (chunk_memory-IsChunk block_memory 4146 1 30 (omega arith) (omega arith)) (omega arith)
      (omega arith) (omega arith) (omega arith) (inl (omega (arith, pair_left))) (omega arith)
      (record { capacity = refl; fits = omega arith; in_width = omega arith }) (omega arith)
      (omega arith) refl (λ j h. elim h [ ])

first_at : data_start 0xC0000000 ≡ 0xC0080000
unfolding data_start
first_at = refl

construct-IsHeader_example :
    (h : Heap) × (m' : Memory) × (construct 0xC0000000 0xC0100000 0xCFFFF000 false false world.heap
        (λ _. 7)
      ≡ ok (h, m'))
    × (contents h.index ≡ data_start 0xC0000000 ∷ [])
    × IsOrderedList h.index
    × (h.index.size ≡ 1)
    × (h.index.max_size ≡ 0x20000)
    × (0xC0080000 ≤ data_start 0xC0000000)
    × IsTiled m' (data_start 0xC0000000) (hole (0xC0100000 - data_start 0xC0000000) ∷ []) 0xC0100000
    × (read32 m' 0xC0000000 ≡ data_start 0xC0000000)
    × ((j : ℕ) → 4 ≤ j → j < 0x80000 → m' (0xC0000000 + j) ≡ 0)
    × ((x : ℕ)
        → (x < 0xC0000000) ⊎ (0xC0080000 ≤ x)
        → (x < data_start 0xC0000000) ⊎ (data_start 0xC0000000 + 12 ≤ x)
        → m' x ≡ 7)
    × (h ≡ record world.heap {
      index = h.index;
      start_address = 0xCFFFF000;
      end_address = 0xC0100000;
    })
construct-IsHeader_example =
    construct-IsHeader 0xC0000000 0xC0100000 0xCFFFF000 false false world.heap (λ _. 7)
      (omega arith) (omega (arith, first_at)) (omega arith)
