-- ===== src/Heap/TilingTests.antt =====
-- Heaps of parts, at work.
use loris.Base.{
  ℕ, ◌+◌, ◌-◌, ◌<◌, ◌≡◌, refl, ◌∙◌, arith, ◌∷◌, [], Memory, true, false, ok, read32, write32,
}
use loris.OrderedList.{get_item_at_index}
use loris.Heap.Layout.{size_of, set_magic, set_is_hole, set_size, set_footer_header}
use loris.Heap.Index.{hole_fits, find_hole_from, find_smallest_hole}
use loris.Heap.Resize.{Pager, World}
use loris.Heap.Alloc.{alloc}
use loris.Heap.Free.{free}
use loris.Heap.Chunks.{IsChunk, chunk_memory, chunk_memory-IsChunk, chunk_outside, IsChunk-same}
use loris.Heap.Tiling.{block, hole, behind, IsTiled, alloc_split-IsTiled}
use loris.Heap.TilingFree.{free_join_both-IsTiled}

abbrev counter : Pager
counter = record { State = ℕ; map_page = λ a k w p. ok (p + 1); unmap_page = λ a p. ok (p - 1) }

-- A block of 30 bytes at 4096 and a hole of 100 bytes behind it.
abbrev block_memory : Memory
block_memory = chunk_memory 4096 0 30 (λ _. 0)

abbrev split_world : World counter
split_world = record {
  heap = record {
    index = record { elements = 4126 ∷ 0 ∷ 0 ∷ []; size = 1; max_size = 3 };
    start_address = 0x10000;
    end_address = 4226;
    max_address = 0x10000;
    supervisor = true;
    readonly = false;
  };
  memory = chunk_memory 4126 1 100 block_memory;
  pages = 1;
}

first-IsChunk : IsChunk split_world.memory 4096 0 30
first-IsChunk =
    IsChunk-same block_memory split_world.memory 4096 0 30 (omega arith)
      (λ x p q. chunk_outside block_memory 4126 1 100 (omega arith) (omega arith) x (omega arith))
      (chunk_memory-IsChunk (λ _. 0) 4096 0 30 (omega arith) (omega arith))

second-IsChunk : IsChunk split_world.memory 4126 1 100
second-IsChunk = chunk_memory-IsChunk block_memory 4126 1 100 (omega arith) (omega arith)

split_found : find_smallest_hole 50 false split_world.memory split_world.heap.index ≡ ok 0
unfolding find_smallest_hole find_hole_from hole_fits size_of set_magic set_is_hole set_size
    set_footer_header read32 write32 get_item_at_index
split_found = refl

split_world-IsTiled : IsTiled split_world.memory 4096 (block 30 ∷ hole 100 ∷ []) 4226
unfolding IsTiled
split_world-IsTiled =
    (omega arith, first-IsChunk.header, (omega arith, second-IsChunk.header, refl))

alloc_split-IsTiled_example :
    (w' : World counter) × (alloc counter 1 30 false split_world ≡ ok (4126 + 12, w'))
    × IsTiled w'.memory 4096 (block 30 ∷ block 50 ∷ hole 50 ∷ []) w'.heap.end_address
unfolding behind
alloc_split-IsTiled_example =
    alloc_split-IsTiled counter split_world 30 0 0 100 4096 (block 30 ∷ []) []
      (record {
        index_wf = record { capacity = refl; fits = omega arith; in_width = omega arith };
        slot = omega arith;
        in_use = omega arith;
        found = split_found;
        large = omega (arith, second-IsChunk.header.size_is);
        word = omega (arith, second-IsChunk.header.size_is);
      })
      refl split_world-IsTiled (omega arith)

-- Behind them a block of 50, a hole of 40 and a block of 60 bytes.
abbrev third_memory : Memory
third_memory = chunk_memory 4226 0 50 split_world.memory

abbrev fourth_memory : Memory
fourth_memory = chunk_memory 4276 1 40 third_memory

abbrev both_world : World counter
both_world = record split_world {
  heap = record split_world.heap {
    index = record { elements = 4276 ∷ 4126 ∷ 0 ∷ []; size = 2; max_size = 3 };
    end_address = 4376;
  };
  memory = chunk_memory 4316 0 60 fourth_memory;
}

kept : (x : ℕ) → x < 4226 → both_world.memory x ≡ split_world.memory x
kept x h =
    chunk_outside fourth_memory 4316 0 60 (omega arith) (omega arith) x (omega arith)
    ∙ chunk_outside third_memory 4276 1 40 (omega arith) (omega arith) x (omega arith)
    ∙ chunk_outside split_world.memory 4226 0 50 (omega arith) (omega arith) x (omega arith)

block-IsChunk : IsChunk both_world.memory 4226 0 50
block-IsChunk =
    IsChunk-same third_memory both_world.memory 4226 0 50 (omega arith)
      (λ x p q.
        chunk_outside fourth_memory 4316 0 60 (omega arith) (omega arith) x (omega arith)
        ∙ chunk_outside third_memory 4276 1 40 (omega arith) (omega arith) x (omega arith))
      (chunk_memory-IsChunk split_world.memory 4226 0 50 (omega arith) (omega arith))

hole-IsChunk : IsChunk both_world.memory 4276 1 40
hole-IsChunk =
    IsChunk-same fourth_memory both_world.memory 4276 1 40 (omega arith)
      (λ x p q. chunk_outside fourth_memory 4316 0 60 (omega arith) (omega arith) x (omega arith))
      (chunk_memory-IsChunk third_memory 4276 1 40 (omega arith) (omega arith))

left-IsChunk : IsChunk both_world.memory 4126 1 100
left-IsChunk =
    IsChunk-same split_world.memory both_world.memory 4126 1 100 (omega arith)
      (λ x p q. kept x (omega arith)) second-IsChunk

both_world-IsTiled :
    IsTiled both_world.memory 4096 (block 30 ∷ hole 100 ∷ block 50 ∷ hole 40 ∷ block 60 ∷ []) 4376
unfolding IsTiled
both_world-IsTiled = (
  omega arith,
  (IsChunk-same split_world.memory both_world.memory 4096 0 30 (omega arith)
      (λ x p q. kept x (omega arith)) first-IsChunk).header,
  (
    omega arith,
    left-IsChunk.header,
    (
      omega arith,
      block-IsChunk.header,
      (
        omega arith,
        hole-IsChunk.header,
        (
          omega arith,
          (chunk_memory-IsChunk fourth_memory 4316 0 60 (omega arith) (omega arith)).header,
          refl,
        ),
      ),
    ),
  ),
)

free_join_both-IsTiled_example :
    (w' : World counter) × (free counter 4238 both_world ≡ ok w')
    × IsTiled w'.memory 4096 (block 30 ∷ hole 190 ∷ block 60 ∷ []) 4376
unfolding behind
free_join_both-IsTiled_example =
    free_join_both-IsTiled counter both_world 4096 (block 30 ∷ []) (block 60 ∷ []) 50 100 40 0
      both_world-IsTiled left-IsChunk block-IsChunk hole-IsChunk (omega arith) (omega arith)
      (omega arith) (omega arith) (omega arith)
      (record { capacity = refl; fits = omega arith; in_width = omega arith }) (omega arith)
      (omega arith) refl (λ h p. elim p [ ])
