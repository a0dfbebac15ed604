-- ===== src/Paging/Stuck.antt =====
-- `initialise_paging` behind its first `switch_page_directory`, on the kernel's own kmalloc.
use loris.Base.{
  ℕ, suc, ◌+◌, ◌*◌, ◌/◌, ◌≡◌, refl, ap, sym, ◌∙◌, arith, true, false, none, Memory, ok, undefined,
  load_ok,
}
use loris.OrderedList.{get_item_at_index}
use loris.Heap.Layout.{Heap, size_of}
use loris.Heap.Index.{hole_fits, find_hole_from, find_smallest_hole}
use loris.Heap.Resize.{Pager, World}
use loris.Heap.Alloc.{data_start, construct, alloc}
use loris.Heap.BestFit.{hole_at}
use loris.Heap.Aligned.{FoundAligned, alloc_aligned}
use loris.Heap.Overruns.{hole_fits_even}
use loris.Heap.GrowAlloc.{only_hole_at}
use loris.Heap.Tiling.{IsTiled}
use loris.Heap.Construct.{construct-IsHeader}
use loris.Kmalloc.{Allocator, kmalloc}
use loris.Paging.{Machine, clone_directory, switch_page_directory}
use loris.Paging.Kernel.{kernel_platform}
use loris.Paging.Boot.{enter_kernel_directory, kernel_boot}

first_hole_at : data_start 0xC0000000 ≡ 0xC0080000
unfolding data_start
first_hole_at = refl

module _ (pager : Pager) (fuel : ℕ)
    (copy : (src destination : ℕ) → Allocator pager → Allocator pager) (old : Heap) (m : Memory)
    (pages : pager.State) where
  -- The heap that `initialise_paging` constructs has room for an aligned directory.
  constructed_alloc :
      (h : Heap) × (m' : Memory) × (construct 0xC0000000 0xC0100000 0xCFFFF000 false false old m
        ≡ ok (h, m'))
      × (w' : World pager) × (alloc pager
            (suc fuel)
            8196
            true
            (record { heap = h; memory = m'; pages = pages })
          ≡ ok (0xC0081000, w'))
  unfolding IsTiled find_smallest_hole find_hole_from get_item_at_index
  constructed_alloc =
      let (h, m', run, shown, wf, one, most, _, (_, header, _), _, _, _, members) =
        construct-IsHeader 0xC0000000 0xC0100000 0xCFFFF000 false false old m (omega arith)
          (omega (arith, first_hole_at)) (omega arith) in
      let w : World pager = record { heap = h; memory = m'; pages = pages } in
      let at : hole_at h.index 0 ≡ 0xC0080000 =
        only_hole_at h.index (data_start 0xC0000000) wf one shown ∙ first_hole_at in
      let size_is : size_of m' 0xC0080000 ≡ 0x80000 =
        ap (size_of m') (sym first_hole_at) ∙ header.size_is ∙ omega (arith, first_hole_at) in
      let size_at : size_of m' (hole_at h.index 0) ≡ 0x80000 = ap (size_of m') at ∙ size_is in
      let end_is : h.end_address ≡ 0xC0100000 = ap (λ (g : Heap). g.end_address) members in
      let item = load_ok h.index.elements 0 0 (omega (arith, one, wf.fits, wf.capacity)) in
      let fits : hole_fits 8216 true m' (hole_at h.index 0) ≡ true =
        hole_fits_even 8216 m' (hole_at h.index 0) (omega (arith, at)) (omega (arith, at))
          (omega (arith, size_at))
        ∙ ground (arith, size_at) in
      let found : find_smallest_hole 8216 true m' h.index ≡ ok 0 =
        ap (λ (k : ℕ). find_hole_from 8216 true m' h.index k 0) one ∙ rw (item, fits) refl in
      let there : FoundAligned pager w 8196 0 = record {
        index_wf = wf;
        slot = omega (arith, one, most);
        in_use = omega (arith, one);
        found = found;
        above = omega (arith, at);
        front_fits = omega (arith, at);
        large = omega (arith, size_at);
        word = omega (arith, size_at, at);
      } in
      let (w', given, _, _, _, _, _, _) =
        alloc_aligned pager w 8196 0 fuel there (omega (arith, size_at, at))
          (omega (arith, size_at, at, end_is)) in
      let page : (hole_at h.index 0 / 4096 + 1) * 4096 ≡ 0xC0081000 = omega (arith, at) in
      (h, m', run, w', given ∙ ap (λ (a : ℕ). ok (a, w')) page)

  -- On the kernel's own kmalloc, where there is no heap yet, the end of `initialise_paging`, from its first
  -- `switch_page_directory` on, is undefined from every state: it constructs the heap before it
  -- clones the kernel directory. `kmalloc` finds room for the clone in the heap, but writes no physical address,
  -- and the clone's `PhysicalAddress` is computed from a variable that was never written.
  pub enter_kernel_directory_undefined :
      (s : Machine (Allocator pager))
      → s.platform_state.kheap ≡ none
      → enter_kernel_directory (kernel_boot pager (suc fuel) copy old m pages) s ≡ undefined
  unfolding enter_kernel_directory kernel_boot kernel_platform kmalloc switch_page_directory
      clone_directory
  enter_kernel_directory_undefined s no_heap =
      let (h, m', run, w', given) = constructed_alloc in rw (no_heap, run, given) refl
