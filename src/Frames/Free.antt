-- ===== src/Frames/Free.antt =====
-- `free_frame`. It passes a frame number to `clear_frame`, which takes an address and divides it
-- by the frame size once more.
use mathlib.Core.Path.{subst}
use loris.Base.{◌/◌, ◌<◌, ◌≡◌, refl, ◌≢◌, arith, Bool, length, ok}
use loris.Frames.{Page, Frames, alloc_frame, free_frame}
use loris.Frames.Bitmap.{used, IsBitmap, Update, clear_frame-Update}
use loris.Frames.Alloc.{alloc_frame-Allocates}

-- What `free_frame` does to a page that owns a frame: the page gives the frame up, and the bitmap
-- loses the frame whose number is the 4096th part of it.
pub free_frame-Update :
    (page : Page) (s : Frames)
    → IsBitmap s
    → page.frame ≢ 0
    → page.frame / 0x1000 / 32 < length s.words
    → (s' : Frames) × (free_frame page s ≡ ok (record page { frame = 0 }, s'))
      × Update s s' (page.frame / 0x1000) 0
unfolding free_frame
free_frame-Update page s bitmap owned inside =
    let (s', e, up) = clear_frame-Update s page.frame bitmap inside in (s', ground (arith, e), up)

-- `free_frame` of a frame other than 0, inside a well-formed bitmap, takes the frame from the
-- page, but the bitmap has the frame as used or free as before.
pub free_frame_leaks :
    (page : Page) (s : Frames) (r : Page × Frames)
    → IsBitmap s
    → page.frame ≢ 0
    → page.frame / 0x1000 / 32 < length s.words
    → free_frame page s ≡ ok r
    → (r.0.frame ≡ 0) × (used r.1 page.frame ≡ used s page.frame)
free_frame_leaks page s r bitmap owned inside e =
    let (s', e', up) = free_frame-Update page s bitmap owned inside in
    let same : (record page { frame = 0 }, s') ≡ r = cc in
    subst (λ (t : Page × Frames). (t.0.frame ≡ 0) × (used t.1 page.frame ≡ used s page.frame)) same
      (refl, ground (arith, up.bits page.frame))

-- Freeing a frame below 4096, other than 0, that was just allocated makes frame 0 free in the
-- bitmap, and leaves the freed frame used.
pub free_frame-frame_zero :
    (k w : Bool) (page : Page) (s : Frames) (r t : Page × Frames)
    → IsBitmap s
    → page.frame ≡ 0
    → alloc_frame k w page s ≡ ok r
    → r.0.frame ≢ 0
    → r.0.frame < 0x1000
    → 0 < length s.words
    → free_frame r.0 r.1 ≡ ok t
    → (used t.1 0 ≡ 0) × (used t.1 r.0.frame ≡ 1)
free_frame-frame_zero k w page s r t bitmap unowned alloc owned small room e =
    let (free, up) = alloc_frame-Allocates k w page s r bitmap unowned alloc in
    let low : r.0.frame / 0x1000 ≡ 0 = omega arith in
    let (s', e', up') = free_frame-Update r.0 r.1 up.bitmap owned (omega (arith, up.same_length)) in
    let same : (record r.0 { frame = 0 }, s') ≡ t = cc in
    subst (λ (u : Page × Frames). (used u.1 0 ≡ 0) × (used u.1 r.0.frame ≡ 1)) same
      (ground (arith, up'.bits 0), ground (arith, up'.bits r.0.frame, up.bits r.0.frame))
