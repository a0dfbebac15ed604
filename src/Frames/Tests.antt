-- ===== src/Frames/Tests.antt =====
-- The frame allocator run on small bitmaps.
use loris.Base.{ℕ, zero, suc, ◌^◌, ◌<◌, ◌≡◌, refl, ◌∷◌, [], true, false, arith, ok, get_or}
use loris.Frames.{
  Page, Frames, scan_word, first_frame_from, first_frame, alloc_frame, free_frame, set_frame,
  clear_frame,
}
use loris.Frames.Bitmap.{used, IsBitmap}
use loris.Frames.Alloc.{Takes, alloc_frame-Takes}
use loris.Frames.Owners.{Owners, here, next, alloc, free, after, IsOwned, Reach-IsOwned}
use loris.Frames.Free.{free_frame_leaks}

abbrev no_page : Page
no_page = record {
  present = 0;
  read_write = 0;
  user = 0;
  accessed = 0;
  dirty = 0;
  unused = 0;
  frame = 0;
}

abbrev page_of : ℕ → Page
page_of f = record no_page { present = 1; read_write = 1; user = 1; frame = f }

abbrev no_page_left : Page
no_page_left = record (page_of 3) { frame = 0 }

-- Frames 0 to 2 and 4 are used, of 32.
abbrev some_frames : Frames
some_frames = record { nframes = 32; words = 0x17 ∷ [] }

in_width_one : (w i : ℕ) → w < 2 ^ 32 → i < 1 → get_or (w ∷ []) i 0 < 2 ^ 32
in_width_one w zero h p = h
in_width_one w (suc i) h p = absurd (omega arith)

one_word : (w : ℕ) → w < 2 ^ 32 → IsBitmap (record { nframes = 32; words = w ∷ [] })
one_word w h = record { in_width = λ i p. in_width_one w i h p; addressable = omega arith }

some_frames-IsBitmap : IsBitmap some_frames
some_frames-IsBitmap = one_word 0x17 (omega arith)

abbrev user_page : Page × Frames
user_page = (page_of 3, record { nframes = 32; words = 0x1F ∷ [] })

alloc_run : alloc_frame false true no_page some_frames ≡ ok user_page
unfolding alloc_frame first_frame first_frame_from scan_word set_frame
alloc_run = refl

alloc_run_next :
    alloc_frame false true no_page user_page.1
    ≡ ok (page_of 5, record { nframes = 32; words = 0x3F ∷ [] })
unfolding alloc_frame first_frame first_frame_from scan_word set_frame
alloc_run_next = refl

free_run :
    free_frame (page_of 3) user_page.1
    ≡ ok (record (page_of 3) { frame = 0 }, record { nframes = 32; words = 0x1E ∷ [] })
unfolding free_frame clear_frame
free_run = refl

alloc_frame-Takes_example : Takes false true no_page some_frames
alloc_frame-Takes_example =
    alloc_frame-Takes false true no_page some_frames 3 some_frames-IsBitmap refl (omega arith) refl

free_frame_leaks_example :
    ((record (page_of 3) { frame = 0 }).frame ≡ 0)
    × (used (record { nframes = 32; words = 0x1E ∷ [] }) 3 ≡ used user_page.1 3)
free_frame_leaks_example =
    free_frame_leaks (page_of 3) user_page.1
      (record (page_of 3) { frame = 0 }, record { nframes = 32; words = 0x1E ∷ [] })
      (one_word 0x1F (omega arith)) (omega arith) (omega arith) free_run

abbrev owners : Owners
owners = record { page_at = λ x. no_page; frames = some_frames }

-- The page at 10 gets frame 3, the page at 20 frame 5, and the first is freed again.
abbrev later : Owners
later =
    after 10 (no_page_left, record { nframes = 32; words = 0x3E ∷ [] })
      (after 20 (page_of 5, record { nframes = 32; words = 0x3F ∷ [] }) (after 10 user_page owners))

free_run_later :
    free_frame (page_of 3) (record { nframes = 32; words = 0x3F ∷ [] })
    ≡ ok (no_page_left, record { nframes = 32; words = 0x3E ∷ [] })
unfolding free_frame clear_frame
free_run_later = refl

Reach-IsOwned_example : IsOwned later
Reach-IsOwned_example =
    Reach-IsOwned owners later some_frames-IsBitmap (omega arith) (omega arith) (λ i. refl)
      (next
        (next (next here (alloc 10 false true user_page alloc_run refl)) (
          alloc 20 false true (page_of 5, record { nframes = 32; words = 0x3F ∷ [] }) alloc_run_next
            refl))
        (free 10 (no_page_left, record { nframes = 32; words = 0x3E ∷ [] }) free_run_later refl))
