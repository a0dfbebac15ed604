-- ===== src/Heap/JoinTests.antt =====
-- Blocks next to holes, a hole from which a block is taken and given back, and holes for aligned blocks.
use mathlib.Core.List.{Perm}
use mathlib.Core.Path.{subst, sym}
use loris.Base.{
  ◌≢◌, inl, ℕ, ◌+◌, ◌-◌, ◌≤◌, ◌<◌, ◌≡◌, refl, ◌⊎◌, arith, ◌∷◌, [], Memory, true, false, ok, read32,
  write32, ◌^◌, ◌%◌,
}
use loris.OrderedList.{get_item_at_index}
use loris.OrderedList.Spec.{contents, IsOrderedList, erase_at}
use loris.Heap.Layout.{magic_of, size_of, set_magic, set_is_hole, set_size, set_footer_header}
use loris.Heap.Index.{hole_fits, find_hole_from, find_smallest_hole}
use loris.Heap.Resize.{Pager, World}
use loris.Heap.Alloc.{alloc}
use loris.Heap.Free.{free}
use loris.Heap.Chunks.{IsChunk, chunk_memory, chunk_memory-IsChunk, chunk_outside, IsChunk-same}
use loris.Heap.Blocks.{IsHeader, IsFooter}
use loris.Heap.BestFit.{hole_at}
use loris.Heap.JoinLeft.{Untouched, free_join_left}
use loris.Heap.JoinBoth.{free_join_both}
use loris.Heap.RoundTrip.{alloc-free}
use loris.OrderedList.Spec.{insert_sorted}
use loris.Heap.Index.{header_less_than}
use loris.Heap.Aligned.{alloc_aligned}
use loris.Heap.Overruns.{alloc_aligned_overruns}

abbrev counter : Pager
counter = record { State = ℕ; map_page = λ a k w p. ok (p + 1); unmap_page = λ a p. ok (p - 1) }

-- A hole of 30 bytes at 4096, a block of 50 behind it and a hole of 40 behind that.
abbrev hole_memory : Memory
hole_memory = chunk_memory 4096 1 30 (λ _. 0)

abbrev block_memory : Memory
block_memory = chunk_memory 4126 0 50 hole_memory

abbrev memory : Memory
memory = chunk_memory 4176 1 40 block_memory

hole-IsChunk : IsChunk block_memory 4096 1 30
hole-IsChunk =
    IsChunk-same hole_memory block_memory 4096 1 30 (omega arith)
      (λ x p q. chunk_outside hole_memory 4126 0 50 (omega arith) (omega arith) x (omega arith))
      (chunk_memory-IsChunk (λ _. 0) 4096 1 30 (omega arith) (omega arith))

block-IsChunk : IsChunk block_memory 4126 0 50
block-IsChunk = chunk_memory-IsChunk hole_memory 4126 0 50 (omega arith) (omega arith)

nothing_behind : magic_of block_memory 4176 ≡ 0
unfolding magic_of set_magic set_is_hole set_size set_footer_header read32 write32
nothing_behind = refl

abbrev left_world : World counter
left_world = record {
  heap = record {
    index = record { elements = 4096 ∷ 0 ∷ 0 ∷ []; size = 1; max_size = 3 };
    start_address = 4096;
    end_address = 0x2000;
    max_address = 0x10000;
    supervisor = true;
    readonly = false;
  };
  memory = block_memory;
  pages = 1;
}

free_join_left_example :
    (w' : World counter) × (free counter 4138 left_world ≡ ok w')
    × IsChunk w'.memory 4096 1 80
    × ((x : ℕ) → Untouched 4096 30 50 x → w'.memory x ≡ block_memory x)
    × (w'.heap ≡ left_world.heap)
free_join_left_example =
    free_join_left counter left_world 4096 30 50 hole-IsChunk block-IsChunk (omega arith)
      (omega arith) (omega arith) (inl (omega (arith, nothing_behind))) (omega arith)

abbrev both_world : World counter
both_world = record left_world {
  heap = record left_world.heap {
    index = record { elements = 4096 ∷ 4176 ∷ 0 ∷ []; size = 2; max_size = 3 };
  };
  memory = memory;
}

behind : (x : ℕ) → x < 4176 → memory x ≡ block_memory x
behind x h = chunk_outside block_memory 4176 1 40 (omega arith) (omega arith) x (omega arith)

free_join_both_example :
    (w' : World counter) × (free counter 4138 both_world ≡ ok w')
    × IsHeader w'.memory 4096 1 120
    × IsFooter w'.memory 4208 4176
    × ((x : ℕ) → Untouched 4096 30 50 x → w'.memory x ≡ memory x)
    × IsOrderedList w'.heap.index
    × (contents w'.heap.index ≡ 4096 ∷ [])
unfolding erase_at
free_join_both_example =
    free_join_both counter both_world 4096 30 50 40 1
      (IsChunk-same block_memory memory 4096 1 30 (omega arith) (λ x p q. behind x (omega arith))
        hole-IsChunk)
      (IsChunk-same block_memory memory 4126 0 50 (omega arith) (λ x p q. behind x (omega arith))
        block-IsChunk)
      (chunk_memory-IsChunk block_memory 4176 1 40 (omega arith) (omega arith)) (omega arith)
      (omega arith) (omega arith) (omega arith) (omega arith)
      (record { capacity = refl; fits = omega arith; in_width = omega arith }) (omega arith)
      (omega arith) refl first
  where
    first : (h : ℕ) → h < 1 → hole_at both_world.heap.index h ≢ 4176
    first h p =
        let e : h ≡ 0 = omega arith in
        subst (λ (k : ℕ). hole_at both_world.heap.index k ≢ 4176) (sym e) (omega arith)

-- One hole of 100 bytes in a larger heap.
abbrev round_world : World counter
round_world = record left_world { memory = chunk_memory 4096 1 100 (λ _. 0) }

round-IsChunk : IsChunk round_world.memory 4096 1 100
round-IsChunk = chunk_memory-IsChunk (λ _. 0) 4096 1 100 (omega arith) (omega arith)

round_found : find_smallest_hole 50 false round_world.memory round_world.heap.index ≡ ok 0
unfolding find_smallest_hole find_hole_from hole_fits size_of set_magic set_is_hole set_size
    set_footer_header read32 write32 get_item_at_index
round_found = refl

round_front : magic_of round_world.memory 4088 ≡ 0
unfolding magic_of set_magic set_is_hole set_size set_footer_header read32 write32
round_front = refl

alloc-free_example :
    (w₁ : World counter) × (w₂ : World counter) × (alloc counter 1 30 false round_world
      ≡ ok (4108, w₁))
    × (free counter 4108 w₁ ≡ ok w₂)
    × IsHeader w₂.memory 4096 1 (size_of round_world.memory 4096)
    × ((x : ℕ)
        → (x < 4096) ⊎ (4096 + size_of round_world.memory 4096 ≤ x)
        → w₂.memory x ≡ round_world.memory x)
    × IsOrderedList w₂.heap.index
    × Perm (contents w₂.heap.index) (contents round_world.heap.index)
alloc-free_example =
    alloc-free counter round_world 30 0 0
      (record {
        index_wf = record { capacity = refl; fits = omega arith; in_width = omega arith };
        slot = omega arith;
        in_use = omega arith;
        found = round_found;
        large = omega (arith, round-IsChunk.header.size_is);
        word = omega (arith, round-IsChunk.header.size_is);
      })
      (omega (arith, round-IsChunk.header.size_is)) (omega (arith, round-IsChunk.header.size_is))
      (omega arith) (inl (omega (arith, round_front)))

-- Holes that begin at 0x1100, 3828 bytes in front of the header of an aligned block.
abbrev page_world : (hole_size : ℕ) → World counter
page_world hole_size = record left_world {
  heap = record left_world.heap {
    index = record { elements = 0x1100 ∷ 0 ∷ 0 ∷ []; size = 1; max_size = 3 };
    end_address = 0x10000;
  };
  memory = chunk_memory 0x1100 1 hole_size (λ _. 0);
}

large_found :
    find_smallest_hole 120 true (page_world 7000).memory (page_world 7000).heap.index ≡ ok 0
unfolding find_smallest_hole find_hole_from hole_fits size_of set_magic set_is_hole set_size
    set_footer_header read32 write32 get_item_at_index
large_found = refl

large_size : size_of (page_world 7000).memory 0x1100 ≡ 7000
large_size =
    (chunk_memory-IsChunk (λ _. 0) 0x1100 1 7000 (omega arith) (omega arith)).header.size_is

alloc_aligned_example :
    (w' : World counter) × (alloc counter 1 100 true (page_world 7000) ≡ ok (0x2000, w'))
    × IsChunk w'.memory 0x1100 1 3828
    × IsChunk w'.memory 8180 0 120
    × IsChunk w'.memory 8300 1 (size_of (page_world 7000).memory 0x1100 - 3828 - 120)
    × ((x : ℕ)
        → (x < 0x1100) ⊎ (0x1100 + size_of (page_world 7000).memory 0x1100 ≤ x)
        → w'.memory x ≡ (page_world 7000).memory x)
    × IsOrderedList w'.heap.index
    × (contents w'.heap.index
        ≡ insert_sorted (header_less_than w'.memory) 8300 (contents (page_world 7000).heap.index))
alloc_aligned_example =
    alloc_aligned counter (page_world 7000) 100 0 0
      (record {
        index_wf = record { capacity = refl; fits = omega arith; in_width = omega arith };
        slot = omega arith;
        in_use = omega arith;
        found = large_found;
        above = omega arith;
        front_fits = omega arith;
        large = omega (arith, large_size);
        word = omega (arith, large_size);
      })
      (omega (arith, large_size)) (omega (arith, large_size))

small_size : size_of (page_world 200).memory 0x1100 ≡ 200
small_size = (chunk_memory-IsChunk (λ _. 0) 0x1100 1 200 (omega arith) (omega arith)).header.size_is

only_first :
    (j : ℕ)
    → j ≤ 0
    → (hole_at (page_world 200).heap.index j % 2 ≡ 0)
      × (hole_at (page_world 200).heap.index j + 12 < 2 ^ 32)
only_first j p =
    subst
      (λ (i : ℕ).
        (hole_at (page_world 200).heap.index i % 2 ≡ 0)
        × (hole_at (page_world 200).heap.index i + 12 < 2 ^ 32))
      (sym first) (omega arith, omega arith)
  where
    first : j ≡ 0
    first = omega arith

alloc_aligned_overruns_example :
    (w' : World counter) × (alloc counter 1 30 true (page_world 200) ≡ ok (0x2000, w'))
    × (0x1100 + size_of (page_world 200).memory 0x1100 ≤ 8180)
    × IsChunk w'.memory 8180 0 50
    × IsHeader w'.memory 8230 1 (2 ^ 32 + size_of (page_world 200).memory 0x1100 - 3828 - 50)
    × (contents w'.heap.index
        ≡ insert_sorted (header_less_than w'.memory) 8230 (contents (page_world 200).heap.index))
alloc_aligned_overruns_example = alloc_aligned_overruns counter (page_world 200) 30 0 0 (record {
  index_wf = record { capacity = refl; fits = omega arith; in_width = omega arith };
  slot = omega arith;
  in_use = omega arith;
  even = λ j p. only_first j p;
  smaller = λ j p. elim p [ ];
  above = omega arith;
  large = omega (arith, small_size);
  short = omega (arith, small_size);
  word = omega arith;
})
