-- ===== src/Frames/Alloc.antt =====
-- `alloc_frame`: what a page and the bitmap are after it, on each of its branches.
use native.Mathlib.Decide.{ℕ_discrete}
use mathlib.Core.Path.{subst}
use loris.Base.{
  ℕ, ◌*◌, ◌/◌, ◌^◌, ◌<◌, ◌≡◌, ◌≢◌, ◌⊎◌, inl, inr, arith, Bool, if◌then◌else◌, ok, undefined, halt,
  u32,
}
use loris.Frames.{Page, Frames, flag, alloc_frame, first_frame}
use loris.Frames.Bitmap.{used, InRange, IsBitmap, Update, set_frame-Update}
use loris.Frames.Search.{first_frame_lem}

-- The page that `alloc_frame` leaves behind: present, with its flags, and owner of frame `f`.
abbrev pub allocated : Bool → Bool → Page → ℕ → Page
allocated is_kernel is_writable page f = record page {
  present = 1;
  read_write = flag is_writable;
  user = if is_kernel then 0 else 1;
  frame = f;
}

-- The lowest free frame is `f`, it goes to the page, and the bitmap then has it as used.
pub record Takes (is_kernel is_writable : Bool) (page : Page) (s : Frames) : Type 0 where
  pub f : ℕ
  pub s' : Frames
  pub returns :
      alloc_frame is_kernel is_writable page s ≡ ok (allocated is_kernel is_writable page f, s')
  pub was_free : used s f ≡ 0
  pub lowest : (g : ℕ) → g < f → used s g ≡ 1
  pub in_range : InRange s f
  pub update : Update s s' f 1

module _ (is_kernel is_writable : Bool) (page : Page) (s : Frames) (bitmap : IsBitmap s)
    (unowned : page.frame ≡ 0) where
  take_frame :
      (f : ℕ)
      → first_frame s ≡ ok f
      → InRange s f
      → used s f ≡ 0
      → ((g : ℕ) → g < f → used s g ≡ 1)
      → Takes is_kernel is_writable page s
  unfolding alloc_frame
  take_frame f eq hi clear all =
      let small : f < 2 ^ 20 = omega (arith, hi.1, bitmap.addressable) in
      let back : u32 (f * 0x1000) / 0x1000 ≡ f = omega arith in
      let (s', e, up) = set_frame-Update s (u32 (f * 0x1000)) bitmap (omega (arith, hi.1)) in
      record {
        f = f;
        s' = s';
        returns = ground (arith, eq, e);
        was_free = clear;
        lowest = all;
        in_range = hi;
        update = subst (λ (k : ℕ). Update s s' k 1) back up;
      }

  -- Either a frame is taken, or none is free and the search ends without a result.
  pub alloc_frame_cases :
      Takes is_kernel is_writable page s
      ⊎ ((alloc_frame is_kernel is_writable page s ≡ undefined)
          × ((g : ℕ) → InRange s g → used s g ≡ 1))
  unfolding alloc_frame
  alloc_frame_cases = elim (first_frame_lem s bitmap) [
    | inl (eq, all) ↦ inr (ground (arith, eq), all)
    | inr (f, eq, hi, clear, all) ↦ inl (take_frame f eq hi clear all)
  ]

-- On an array of uint32_t for at most 2 ^ 20 frames, which may be shorter than `nframes` asks for, on a page
-- without a frame, and while some frame `g` in the array is free, `alloc_frame` returns: the page gets
-- the lowest free frame, with `Present` set and the two flags as asked, and the bitmap changes
-- in that one frame, which it now has as used.
pub alloc_frame-Takes :
    (is_kernel is_writable : Bool) (page : Page) (s : Frames) (g : ℕ)
    → IsBitmap s
    → page.frame ≡ 0
    → InRange s g
    → used s g ≡ 0
    → Takes is_kernel is_writable page s
alloc_frame-Takes is_kernel is_writable page s g bitmap unowned inside clear =
    elim (alloc_frame_cases is_kernel is_writable page s bitmap unowned) [
      | inl t ↦ t
      | inr (eq, all) ↦ absurd (omega (arith, all g inside))
    ]

-- Where every frame is used, a page without a frame makes `alloc_frame` run off the end of
-- `first_frame`, which has no `return` there.
pub alloc_frame_exhausted :
    (is_kernel is_writable : Bool) (page : Page) (s : Frames)
    → IsBitmap s
    → page.frame ≡ 0
    → ((g : ℕ) → InRange s g → used s g ≡ 1)
    → alloc_frame is_kernel is_writable page s ≡ undefined
alloc_frame_exhausted is_kernel is_writable page s bitmap unowned full =
    elim (alloc_frame_cases is_kernel is_writable page s bitmap unowned) [
      | inl t ↦ absurd (omega (arith, t.was_free, full t.f t.in_range))
      | inr (eq, all) ↦ eq
    ]

-- On any bitmap and any page, `alloc_frame` never comes to the message "No free frames!" and the
-- endless loop behind it.
pub alloc_frame-ne_halt :
    (is_kernel is_writable : Bool) (page : Page) (s : Frames)
    → IsBitmap s
    → alloc_frame is_kernel is_writable page s ≢ halt
alloc_frame-ne_halt is_kernel is_writable page s bitmap h = elim (ℕ_discrete page.frame 0) [
  | yes e ↦ elim (alloc_frame_cases is_kernel is_writable page s bitmap e) [
    | inl t ↦ cc (t.returns)
    | inr (eq, all) ↦ cc
  ]
  | no ne ↦ unfold alloc_frame in ground arith
]

-- The frame that a successful call hands out was free and is used afterwards; no other changes.
abbrev pub Allocates : Frames → Page × Frames → Type 0
Allocates s (page, s') = (used s page.frame ≡ 0) × Update s s' page.frame 1

pub alloc_frame-Allocates :
    (is_kernel is_writable : Bool) (page : Page) (s : Frames) (r : Page × Frames)
    → IsBitmap s
    → page.frame ≡ 0
    → alloc_frame is_kernel is_writable page s ≡ ok r
    → Allocates s r
alloc_frame-Allocates is_kernel is_writable page s r bitmap unowned e =
    elim (alloc_frame_cases is_kernel is_writable page s bitmap unowned) [
      | inl t ↦
          let same : (allocated is_kernel is_writable page t.f, t.s') ≡ r = cc (t.returns) in
          subst (Allocates s) same (t.was_free, t.update)
      | inr (eq, all) ↦ absurd (cc)
    ]

-- Two calls in a row that return, on a well-formed bitmap and for two pages without frames, never
-- hand out the same frame, and both frames are used afterwards.
pub alloc_frame_distinct :
    (k w k' w' : Bool) (p q : Page) (s : Frames) (r t : Page × Frames)
    → IsBitmap s
    → p.frame ≡ 0
    → q.frame ≡ 0
    → alloc_frame k w p s ≡ ok r
    → alloc_frame k' w' q r.1 ≡ ok t
    → (r.0.frame ≢ t.0.frame) × (used t.1 r.0.frame ≡ 1) × (used t.1 t.0.frame ≡ 1)
alloc_frame_distinct k w k' w' p q s r t bitmap ep eq first second =
    let (free, up) = alloc_frame-Allocates k w p s r bitmap ep first in
    let (free', up') = alloc_frame-Allocates k' w' q r.1 t up.bitmap eq second in
    (
      λ e. ground (arith, up.bits t.0.frame),
      ground (arith, up.bits r.0.frame, up'.bits r.0.frame),
      ground (arith, up'.bits t.0.frame),
    )

-- A page that was given a frame other than frame 0 keeps it: calling again changes nothing.
pub alloc_frame_again :
    (k w k' w' : Bool) (page : Page) (s : Frames) (r : Page × Frames)
    → alloc_frame k w page s ≡ ok r
    → r.0.frame ≢ 0
    → alloc_frame k' w' r.0 r.1 ≡ ok r
unfolding alloc_frame
alloc_frame_again k w k' w' page s r e owned = ground arith
