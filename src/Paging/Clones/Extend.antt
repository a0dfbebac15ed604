-- ===== src/Paging/Clones/Extend.antt =====
-- One entry more of a cloned table: what the loop of `clone_table` does in one round.
use mathlib.Core.Path.{subst}
use native.Mathlib.Decide.{ℕ_discrete}
use loris.Base.{
  ℕ, ◌+◌, ◌^◌, ◌≤◌, ◌<◌, ◌≡◌, ◌≢◌, sym, ap, ◌∙◌, ◌⊎◌, arith, true, false, Memory, ◌==◌,
  if◌then◌else◌,
}
use loris.Frames.{Page, Frames}
use loris.Frames.Bitmap.{used, IsBitmap}
use loris.Frames.Alloc.{Takes}
use loris.Paging.{load_page, store_page, pages}
use loris.Paging.Entries.{IsPage, blank, load_page_same, load_page-store_page, store_page_outside}
use loris.Paging.Clones.{cloned, cloned-IsPage}

-- The entries `page lo`, ..., `page 1023` have their clones in the table: entries with no frame
-- stay blank, the others have frames of their own, `frame j`, which were free and are now used.
pub record HasClones (table lo : ℕ) (page : ℕ → Page) (frame : ℕ → ℕ) (m : Memory) (s : Frames)
    (m' : Memory) (s' : Frames) : Type 0 where
  pub no_entry :
      (j : ℕ) → lo ≤ j → j < 1024 → (page j).frame ≡ 0 → load_page m' (pages table j) ≡ blank
  pub entry :
      (j : ℕ)
      → lo ≤ j
      → j < 1024
      → (page j).frame ≢ 0
      → (load_page m' (pages table j) ≡ cloned (page j) (frame j))
        × (used s (frame j) ≡ 0)
        × (used s' (frame j) ≡ 1)
  pub distinct :
      (j k : ℕ)
      → lo ≤ j
      → j < k
      → k < 1024
      → (page j).frame ≢ 0
      → (page k).frame ≢ 0
      → frame j ≢ frame k
  pub still_used : (g : ℕ) → used s g ≡ 1 → used s' g ≡ 1
  pub kept : (x : ℕ) → (x < pages table lo) ⊎ (pages table 1024 ≤ x) → m' x ≡ m x

-- The memory after the clone of entry `i`, which owns frame `f`, was written.
abbrev pub stored : (table : ℕ) (page : ℕ → Page) (i f : ℕ) → Memory → Memory
stored table page i f m = store_page (pages table i) (cloned (page i) f) m

-- The frame of entry `i` is `f`, that of the others is `frame`.
abbrev pub with_frame : (i f : ℕ) (frame : ℕ → ℕ) → ℕ → ℕ
with_frame i f frame j = if j == i then f else frame j

module _ (table : ℕ) (page : ℕ → Page) (legal : (j : ℕ) → IsPage (page j)) where
  pub HasClones-skipped :
      (i : ℕ) (frame : ℕ → ℕ) (m : Memory) (s : Frames) (m' : Memory) (s' : Frames)
      → i < 1024
      → (page i).frame ≡ 0
      → load_page m (pages table i) ≡ blank
      → HasClones table (i + 1) page frame m s m' s'
      → HasClones table i page frame m s m' s'
  HasClones-skipped i frame m s m' s' hi z fresh c = record {
    no_entry = λ j p q e. elim (ℕ_discrete j i) [
      | yes same ↦
          subst (λ (k : ℕ). load_page m' (pages table k) ≡ blank) (sym same)
            (load_page_same m m' (pages table i) (λ x h h'. c.kept x (omega arith)) ∙ fresh)
      | no ne ↦ c.no_entry j (omega arith) q e
    ];
    entry = λ j p q e. elim (ℕ_discrete j i) [
      | yes same ↦ absurd (e (ap (λ (k : ℕ). (page k).frame) same ∙ z))
      | no ne ↦ c.entry j (omega arith) q e
    ];
    distinct = λ j k p q h e e'. elim (ℕ_discrete j i) [
      | yes same ↦ absurd (e (ap (λ (k : ℕ). (page k).frame) same ∙ z))
      | no ne ↦ c.distinct j k (omega arith) q h e e'
    ];
    still_used = c.still_used;
    kept = λ x out. c.kept x (omega arith);
  }

  pub HasClones-entry :
      (i : ℕ) (frame : ℕ → ℕ) (m : Memory) (s : Frames) (m' : Memory) (s' : Frames)
      → i < 1024
      → (page i).frame ≢ 0
      → IsBitmap s
      → (t : Takes false false blank s)
      → HasClones table (i + 1) page frame (stored table page i t.f m) t.s' m' s'
      → HasClones table i page (with_frame i t.f frame) m s m' s'
  HasClones-entry i frame m s m' s' hi ne bitmap t c = record {
    no_entry = λ j p q e. elim (ℕ_discrete j i) [
      | yes same ↦ absurd (ne (ap (λ (k : ℕ). (page k).frame) (sym same) ∙ e))
      | no other ↦ c.no_entry j (omega arith) q e
    ];
    entry = λ j p q e. elim (ℕ_discrete j i) [
      | yes same ↦ let test : (j == i) ≡ true = ground arith in rw (test, same) (own)
      | no other ↦
          let test : (j == i) ≡ false = ground arith in
          let (loaded, free, taken) = c.entry j (omega arith) q e in
          rw test (loaded, was_free (frame j) free, taken)
    ];
    distinct = λ j k p q h e e'.
        let later : (k == i) ≡ false = ground arith in
        rw later (elim (ℕ_discrete j i) [
          | yes same ↦
              let test : (j == i) ≡ true = ground arith in
              rw test (own_distinct (frame k) (c.entry k (omega arith) h e').1)
          | no other ↦
              let test : (j == i) ≡ false = ground arith in
              rw test (c.distinct j k (omega arith) q h e e')
        ]);
    still_used = λ g e. c.still_used g (ground (arith, t.update.bits g));
    kept = λ x out.
        c.kept x (omega arith)
        ∙ store_page_outside (pages table i) (cloned (page i) t.f) m x (omega arith);
  }
    where
      small : t.f < 2 ^ 20
      small = omega (arith, t.in_range.1, bitmap.addressable)

      own :
          (load_page m' (pages table i) ≡ cloned (page i) t.f)
          × (used s t.f ≡ 0)
          × (used s' t.f ≡ 1)
      own = (
        load_page_same (stored table page i t.f m) m' (pages table i)
              (λ x h h'. c.kept x (omega arith))
            ∙ load_page-store_page (pages table i) (cloned (page i) t.f) m
                (cloned-IsPage (page i) t.f (legal i) small),
        t.was_free,
        c.still_used t.f (ground (arith, t.update.bits t.f)),
      )

      was_free : (g : ℕ) → used t.s' g ≡ 0 → used s g ≡ 0
      was_free g e = ground (arith, t.update.bits g)

      own_distinct : (g : ℕ) → used t.s' g ≡ 0 → t.f ≢ g
      own_distinct g e same = ground (arith, t.update.bits g)
