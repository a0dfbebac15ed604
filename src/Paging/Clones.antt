-- ===== src/Paging/Clones.antt =====
-- `clone_table`: what a cloned entry is, and that there are frames for all of them.
pub mod Extend
pub mod Table
use native.Mathlib.Decide.{ℕ_discrete}
use loris.Base.{
  ℕ, zero, suc, ◌+◌, ◌*◌, ◌/◌, ◌%◌, ◌^◌, ◌≤◌, ◌<◌, ◌≡◌, ◌≢◌, refl, sym, ap, ◌∙◌, ◌⊎◌, inl, inr,
  arith, Bool, true, false, Run, ok, ◌>>=◌, ◌==◌, if◌then◌else◌,
}
use loris.Frames.{Page, Frames, alloc_frame}
use loris.Frames.Bitmap.{used, InRange, IsBitmap, Update}
use loris.Frames.Alloc.{allocated, Takes, alloc_frame-Takes}
use loris.Paging.{Platform, Machine, load_page, store_page, pages, clone_flags, clone_entry}
use loris.Paging.Entries.{IsPage, blank}

-- At least `n` frames are free: different frames `free 0`, ..., `free (n - 1)`.
pub record HasFree (n : ℕ) (s : Frames) : Type 0 where
  pub free : ℕ → ℕ
  pub in_range : (j : ℕ) → j < n → InRange s (free j)
  pub is_free : (j : ℕ) → j < n → used s (free j) ≡ 0
  pub distinct : (j k : ℕ) → j < n → k < n → free j ≡ free k → j ≡ k

-- Taking a frame leaves one free frame less.
pub HasFree-Update : (n f : ℕ) (s s' : Frames) → Update s s' f 1 → HasFree (suc n) s → HasFree n s'
HasFree-Update n f s s' up h = record {
  free = other;
  in_range = λ j p. inside j p;
  is_free = λ j p. ground (arith, up.bits (other j), h.is_free j, h.is_free n, h.distinct j n);
  distinct = λ j k p q e. ground (arith, h.distinct j k, h.distinct j n, h.distinct k n);
}
  where
    other : ℕ → ℕ
    other j = if h.free j == f then h.free n else h.free j

    inside : (j : ℕ) → j < n → InRange s' (other j)
    inside j p = rw (up.same_count, up.same_length) (ground (arith, h.in_range j, h.in_range n))

-- The clone of an entry, which owns frame `f`.
abbrev pub cloned : Page → ℕ → Page
cloned p f = record {
  present = 1;
  read_write = p.read_write;
  user = 1;
  accessed = p.accessed;
  dirty = p.dirty;
  unused = 0;
  frame = f;
}

clone_flags-cloned :
    (p : Page) (f : ℕ) → IsPage p → clone_flags p (allocated false false blank f) ≡ cloned p f
unfolding clone_flags
clone_flags-cloned p f i =
    let kept : (x : ℕ) → x < 2 → ◌≡◌ {A = ℕ} (if x == 0 then 0 else 1) x = λ x h. bit_kept x h in
    let always : (x : ℕ) → ◌≡◌ {A = ℕ} (if x == 0 then 1 else 1) 1 = λ x. set_anyway x in
    rw
      (
        always p.present,
        kept p.read_write i.read_write_fits,
        always p.user,
        kept p.accessed i.accessed_fits,
        kept p.dirty i.dirty_fits,
      )
      refl
  where
    bit_kept : (x : ℕ) → x < 2 → (if x == 0 then 0 else 1) ≡ x
    bit_kept x h = ground arith

    set_anyway : (x : ℕ) → ◌≡◌ {A = ℕ} (if x == 0 then 1 else 1) 1
    set_anyway x = ground arith

pub cloned-IsPage : (p : Page) (f : ℕ) → IsPage p → f < 2 ^ 20 → IsPage (cloned p f)
cloned-IsPage p f i h = record {
  present_fits = omega arith;
  read_write_fits = i.read_write_fits;
  user_fits = omega arith;
  accessed_fits = i.accessed_fits;
  dirty_fits = i.dirty_fits;
  unused_fits = omega arith;
  frame_fits = h;
}

module _ {S : Type 0} (platform : Platform S) (i table src : ℕ) (p : Page) (s : Machine S)
    (here : load_page s.memory (pages src i) ≡ p) where
  pub clone_entry_skipped : p.frame ≡ 0 → clone_entry platform i table src s ≡ ok s
  unfolding clone_entry
  clone_entry_skipped z = rw (here, z) refl

  -- An entry with a frame, where another frame is free.
  pub clone_entry-cloned :
      (n : ℕ)
      → IsPage p
      → p.frame ≢ 0
      → load_page s.memory (pages table i) ≡ blank
      → IsBitmap s.frames
      → HasFree (suc n) s.frames
      → (t : Takes false false blank s.frames) × (clone_entry platform i table src s
          ≡ ok (record s {
            memory = store_page (pages table i) (cloned p t.f) s.memory;
            frames = t.s';
            platform_state =
                platform.copy_page_physical (p.frame * 0x1000) (t.f * 0x1000) s.platform_state;
          }))
  clone_entry-cloned n ip ne fresh bitmap h =
      let t =
        alloc_frame-Takes false false blank s.frames (h.free 0) bitmap refl
          (h.in_range 0 (omega arith)) (h.is_free 0 (omega arith)) in
      let test : (p.frame == 0) ≡ false = ground arith in
      (t, unfold clone_entry in rw (here, test, fresh, t.returns, clone_flags-cloned p t.f ip) refl)
