-- ===== src/Frames/Owners.antt =====
-- The pages that `alloc_frame` and `free_frame` give frames to and take them from, over any sequence of
-- calls.
use native.Mathlib.Decide.{ℕ_discrete}
use mathlib.Core.Path.{subst}
use loris.Base.{
  ℕ, ◌/◌, ◌≤◌, ◌<◌, ◌≡◌, refl, sym, ap, ◌≢◌, inl, inr, arith, Bool, ok, length, ◌==◌, if◌then◌else◌,
}
use loris.Frames.{Page, Frames, alloc_frame, free_frame}
use loris.Frames.Bitmap.{used, IsBitmap, Update}
use loris.Frames.Alloc.{allocated, alloc_frame_cases}
use loris.Frames.Free.{free_frame-Update}

-- All pages by their addresses, and the bitmap.
pub record Owners : Type 0 where
  pub page_at : ℕ → Page
  pub frames : Frames

-- The owners after a call on the page at `i`.
abbrev pub after : (i : ℕ) → Page × Frames → Owners → Owners
after i (page, frames) s = record {
  page_at = λ x. if x == i then page else s.page_at x;
  frames = frames;
}

pub data Step (s t : Owners) : Type 0 where
  alloc :
      (i : ℕ) (is_kernel is_writable : Bool) (r : Page × Frames)
      → alloc_frame is_kernel is_writable (s.page_at i) s.frames ≡ ok r
      → t ≡ after i r s
      → Step s t
  free :
      (i : ℕ) (r : Page × Frames)
      → free_frame (s.page_at i) s.frames ≡ ok r
      → t ≡ after i r s
      → Step s t

pub data Reach (s : Owners) : Owners → Type 0 where
  here : Reach s s
  next : {t u : Owners} → Reach s t → Step t u → Reach s u

-- No frame but frame 0 has two owners, and the bitmap has the owned frames as used.
pub record IsOwned (s : Owners) : Type 0 where
  pub bitmap : IsBitmap s.frames
  pub room : 0 < length s.frames.words
  pub few : length s.frames.words ≤ 128
  pub small : (i : ℕ) → (s.page_at i).frame < 4096
  pub taken : (i : ℕ) → (s.page_at i).frame ≢ 0 → used s.frames (s.page_at i).frame ≡ 1
  pub one_owner :
      (i j : ℕ) → i ≢ j → (s.page_at i).frame ≢ 0 → (s.page_at i).frame ≢ (s.page_at j).frame

-- A call that gives the page at `i` the frame `r.0.frame`, which no other page has, and changes the
-- bitmap in the bit `f`, which no other page owns.
after-IsOwned :
    (s : Owners) (i f b : ℕ) (r : Page × Frames)
    → IsOwned s
    → Update s.frames r.1 f b
    → r.0.frame < 4096
    → (r.0.frame ≢ 0 → used r.1 r.0.frame ≡ 1)
    → ((j : ℕ) → j ≢ i → (s.page_at j).frame ≢ 0 → (s.page_at j).frame ≢ r.0.frame)
    → ((j : ℕ) → j ≢ i → (s.page_at j).frame ≢ 0 → (s.page_at j).frame ≡ f → b ≡ 1)
    → IsOwned (after i r s)
after-IsOwned s i f b (page, frames) v up fits owned others cleared = record {
  bitmap = up.bitmap;
  room = omega (arith, up.same_length, v.room);
  few = omega (arith, up.same_length, v.few);
  small = λ x. ground (arith, v.small x);
  taken = λ x. ground (arith, owned, up.bits (s.page_at x).frame, v.taken x, cleared x);
  one_owner = λ x y ne. ground (arith, others x, others y, v.one_owner x y, ne);
}

unchanged-IsOwned : (s : Owners) (i : ℕ) → IsOwned s → IsOwned (after i (s.page_at i, s.frames) s)
unchanged-IsOwned s i v =
    after-IsOwned s i 0 (used s.frames 0) (s.page_at i, s.frames) v
      (record {
        same_count = refl;
        same_length = refl;
        bits = λ g. ground (arith, ap (used s.frames));
        bitmap = v.bitmap;
      })
      (v.small i) (v.taken i) (λ j ne h. v.one_owner j i ne h) (λ j ne h e. absurd (h e))

alloc-IsOwned :
    (s : Owners) (i : ℕ) (k w : Bool) (r : Page × Frames)
    → alloc_frame k w (s.page_at i) s.frames ≡ ok r
    → IsOwned s
    → IsOwned (after i r s)
alloc-IsOwned s i k w r run v = elim (ℕ_discrete (s.page_at i).frame 0) [
  | yes unowned ↦ elim (alloc_frame_cases k w (s.page_at i) s.frames v.bitmap unowned) [
    | inl t ↦
        let same : (allocated k w (s.page_at i) t.f, t.s') ≡ r = cc (t.returns) in
        subst (λ (u : Page × Frames). IsOwned (after i u s)) same
          (after-IsOwned s i t.f 1 (allocated k w (s.page_at i) t.f, t.s') v t.update
            (omega (arith, t.in_range.1, v.few)) (λ ne. ground (arith, t.update.bits t.f))
            (λ j ne h e.
              let both : used s.frames (s.page_at j).frame ≡ used s.frames t.f =
                ap (used s.frames) e in
              omega (arith, both, v.taken j h, t.was_free))
            (λ j ne h e. refl))
    | inr (eq, all) ↦ absurd (cc)
  ]
  | no owned ↦
      let kept : alloc_frame k w (s.page_at i) s.frames ≡ ok (s.page_at i, s.frames) =
        unfold alloc_frame in ground arith in
      let same : (s.page_at i, s.frames) ≡ r = cc in
      subst (λ (u : Page × Frames). IsOwned (after i u s)) same (unchanged-IsOwned s i v)
]

free-IsOwned :
    (s : Owners) (i : ℕ) (r : Page × Frames)
    → free_frame (s.page_at i) s.frames ≡ ok r
    → IsOwned s
    → IsOwned (after i r s)
free-IsOwned s i r run v = elim (ℕ_discrete (s.page_at i).frame 0) [
  | yes unowned ↦
      let kept : free_frame (s.page_at i) s.frames ≡ ok (s.page_at i, s.frames) =
        unfold free_frame in ground arith in
      let same : (s.page_at i, s.frames) ≡ r = cc in
      subst (λ (u : Page × Frames). IsOwned (after i u s)) same (unchanged-IsOwned s i v)
  | no owned ↦
      let (frames', freed, up) =
        free_frame-Update (s.page_at i) s.frames v.bitmap owned
          (omega (arith, v.small i, v.room)) in
      let same : (record (s.page_at i) { frame = 0 }, frames') ≡ r = cc in
      subst (λ (u : Page × Frames). IsOwned (after i u s)) same
        (after-IsOwned s i ((s.page_at i).frame / 0x1000) 0
          (record (s.page_at i) { frame = 0 }, frames') v up (omega arith) (λ ne. absurd (ne refl))
          (λ j ne h. h) (λ j ne h e. absurd (h (omega (arith, e, v.small i)))))
]

Step-IsOwned : {s t : Owners} → Step s t → IsOwned s → IsOwned t
Step-IsOwned {s} (alloc i k w r run e) v = subst IsOwned (sym e) (alloc-IsOwned s i k w r run v)
Step-IsOwned {s} (free i r run e) v = subst IsOwned (sym e) (free-IsOwned s i r run v)

Reach-keeps : {s t : Owners} → Reach s t → IsOwned s → IsOwned t
Reach-keeps here v = v
Reach-keeps (next r st) v = Step-IsOwned st (Reach-keeps r v)

-- From a state in which no page has a frame, with a bitmap for at most 4096 frames, whatever sequence of
-- calls of `alloc_frame` and `free_frame` on any pages follows, each of which returns: no frame other
-- than frame 0 ever has two owners, and the bitmap has each owned frame but frame 0 as used.
pub Reach-IsOwned :
    (s t : Owners)
    → IsBitmap s.frames
    → 0 < length s.frames.words
    → length s.frames.words ≤ 128
    → ((i : ℕ) → (s.page_at i).frame ≡ 0)
    → Reach s t
    → IsOwned t
Reach-IsOwned s t bitmap room few none r = Reach-keeps r (record {
  bitmap = bitmap;
  room = room;
  few = few;
  small = λ i. omega (arith, none i);
  taken = λ i ne. absurd (ne (none i));
  one_owner = λ i j other ne. absurd (ne (none i));
})
