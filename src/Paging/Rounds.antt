-- ===== src/Paging/Rounds.antt =====
-- The rounds of the identity map of `initialise_paging`, in a table that is there.
use mathlib.Core.Path.{subst}
use native.Mathlib.Decide.{ℕ_discrete}
use loris.Base.{
  ℕ, zero, suc, ◌+◌, ◌*◌, ◌/◌, ◌^◌, ◌≤◌, ◌<◌, ◌≡◌, ◌≢◌, refl, sym, ap, ◌∙◌, ◌⊎◌, arith, Bool, true,
  false, Memory, read32, read32_same, Run, ok, ◌>>=◌, add32, ltb,
}
use loris.Frames.{Page, Frames, alloc_frame}
use loris.Frames.Bitmap.{used, InRange, IsBitmap}
use loris.Frames.Alloc.{Takes, allocated, alloc_frame-Takes}
use loris.Paging.{Machine, load_page, store_page, tables, pages, get_page}
use loris.Paging.Entries.{IsPage, blank, load_page_same, load_page-store_page, store_page_outside}
use loris.Paging.Tables.{Apart, table_index, page_index, get_page_found}
use loris.Paging.Boot.{Boot, alloc_frame_at, identity_map}

-- A page of the identity map: present, read-only, for users, with frame `j`.
abbrev pub identity_page : ℕ → Page
identity_page j = allocated false false blank j

identity_page-IsPage : (j : ℕ) → j < 1024 → IsPage (identity_page j)
identity_page-IsPage j h = record {
  present_fits = omega arith;
  read_write_fits = omega arith;
  user_fits = omega arith;
  accessed_fits = omega arith;
  dirty_fits = omega arith;
  unused_fits = omega arith;
  frame_fits = omega arith;
}

-- The first `k` of `n` pages of the table are mapped, and the first `k` frames are used.
pub record IsMapped (table n k : ℕ) (m : Memory) (s : Frames) : Type 0 where
  pub mapped : (j : ℕ) → j < k → load_page m (pages table j) ≡ identity_page j
  pub unmapped : (j : ℕ) → k ≤ j → j < n → load_page m (pages table j) ≡ blank
  pub bitmap : IsBitmap s
  pub taken : (g : ℕ) → g < k → used s g ≡ 1
  pub free : (g : ℕ) → k ≤ g → g < n → used s g ≡ 0
  pub in_range : (g : ℕ) → g < n → InRange s g

-- The page that is mapped next gets its own frame.
next_frame :
    (table n k : ℕ) (m : Memory) (s : Frames)
    → k < n
    → n ≤ 1024
    → IsMapped table n k m s
    → (s' : Frames) × (alloc_frame false false (load_page m (pages table k)) s
        ≡ ok (identity_page k, s'))
      × IsMapped table n (suc k) (store_page (pages table k) (identity_page k) m) s'
next_frame table n k m s inside small v =
    let page : load_page m (pages table k) ≡ blank = v.unmapped k (omega arith) inside in
    let t : Takes false false blank s =
      alloc_frame-Takes false false blank s k v.bitmap refl (v.in_range k inside)
        (v.free k (omega arith) inside) in
    let f : t.f ≡ k = ground (arith, v.taken t.f, t.was_free, t.lowest k, v.free k) in
    let m' = store_page (pages table k) (identity_page k) m in
    let same : (j : ℕ) → j ≢ k → load_page m' (pages table j) ≡ load_page m (pages table j) =
      λ j ne.
        load_page_same m m' (pages table j)
          (λ x p q. store_page_outside (pages table k) (identity_page k) m x (omega arith)) in
    (
      t.s',
      ap (λ (p : Page). alloc_frame false false p s) page
          ∙ t.returns
          ∙ ap (λ (g : ℕ). ok (identity_page g, t.s')) f,
      record {
        mapped = λ j h. elim (ℕ_discrete j k) [
          | yes at ↦
              subst (λ (i : ℕ). load_page m' (pages table i) ≡ identity_page i) (sym at)
                (load_page-store_page (pages table k) (identity_page k) m
                  (identity_page-IsPage k (omega arith)))
          | no ne ↦ same j ne ∙ v.mapped j (omega arith)
        ];
        unmapped = λ j p q. same j (omega arith) ∙ v.unmapped j (omega arith) q;
        bitmap = t.update.bitmap;
        taken = λ g h. ground (arith, f, t.update.bits g, v.taken g);
        free = λ g p q. ground (arith, f, t.update.bits g, v.free g);
        in_range = λ g h. rw (t.update.same_count, t.update.same_length) (v.in_range g h);
      },
    )

module _ {S : Type 0} (boot : Boot S) (fuel i : ℕ) (s : Machine S) where
  abbrev pub rest_of_round : Bool → Run (Machine S)
  rest_of_round t = elim t [
    | true ↦ do
      (page, s') ← get_page boot.platform i true s.kernel_directory s
      s'' ← alloc_frame_at boot page s'
      identity_map boot fuel (i + 0x1000) s''
    | false ↦ ok s
  ]

  pub identity_map-round :
      (t : Bool)
      → ltb i (add32 (boot.placement_address s.platform_state) 0x1000) ≡ t
      → identity_map boot (suc fuel) i s ≡ rest_of_round t
  unfolding identity_map
  identity_map-round t e = ap rest_of_round e

module _ {S : Type 0} (boot : Boot S) (dir table n : ℕ) (a : S) (m₀ : Memory) (nonnull : table ≢ 0)
    (apart : Apart table 4096 dir 8196) (small : n ≤ 1024)
    (low : boot.placement_address a + 4096 < 2 ^ 32)
    (count : n ≡ (boot.placement_address a + 4096 + 4095) / 4096) where
  -- The loop has mapped `k` pages.
  pub record IsRound (k : ℕ) (s : Machine S) : Type 0 where
    pub state_is : s.platform_state ≡ a
    pub directory_is : s.kernel_directory ≡ dir
    pub table_is : read32 s.memory (tables dir 0) ≡ table
    pub pages_are : IsMapped table n k s.memory s.frames
    pub kept : (x : ℕ) → (x < table) ⊎ (table + 4096 ≤ x) → s.memory x ≡ m₀ x

  round :
      (fuel k : ℕ) (s : Machine S)
      → k < n
      → IsRound k s
      → (s' : Machine S) × (identity_map boot (suc fuel) (k * 4096) s
          ≡ identity_map boot fuel (suc k * 4096) s')
        × IsRound (suc k) s'
  unfolding alloc_frame_at
  round fuel k s inside v =
      let page = pages table k in
      let (frames', run, mapped) =
        next_frame table n k s.memory s.frames inside small v.pages_are in
      let m' = store_page page (identity_page k) s.memory in
      let s' : Machine S = record s { memory = m'; frames = frames' } in
      let limit : ltb (k * 4096) (add32 (boot.placement_address s.platform_state) 4096) ≡ true =
        ground (arith, ap boot.placement_address v.state_is) in
      let first : table_index (k * 4096) ≡ 0 = omega arith in
      let second : page_index (k * 4096) ≡ k = omega arith in
      let found : get_page boot.platform (k * 4096) true s.kernel_directory s ≡ ok (page, s) =
        get_page_found boot.platform (k * 4096) s.kernel_directory s true table
          (ap (λ (i : ℕ). read32 s.memory (tables s.kernel_directory i)) first
            ∙ ap (λ (d : ℕ). read32 s.memory (tables d 0)) v.directory_is
            ∙ v.table_is)
          nonnull
        ∙ ap (λ (i : ℕ). ok (pages table i, s)) second in
      let next : k * 4096 + 4096 ≡ suc k * 4096 = omega arith in
      let outside : (x : ℕ) → (x < table) ⊎ (table + 4096 ≤ x) → m' x ≡ s.memory x =
        λ x out. store_page_outside page (identity_page k) s.memory x (omega arith) in
      (
        s',
        identity_map-round boot fuel (k * 4096) s true limit ∙ rw (found, run, next) refl,
        record {
          state_is = v.state_is;
          directory_is = v.directory_is;
          table_is =
              read32_same s.memory m' (tables dir 0) (λ x p q. outside x (omega arith))
              ∙ v.table_is;
          pages_are = mapped;
          kept = λ x out. outside x out ∙ v.kept x out;
        },
      )

  pub rounds :
      (left fuel k : ℕ) (s : Machine S)
      → left < fuel
      → k + left ≡ n
      → IsRound k s
      → (s' : Machine S) × (identity_map boot fuel (k * 4096) s ≡ ok s') × IsRound n s'
  rounds left zero k s h e v = elim h [ ]
  rounds zero (suc fuel) k s h e v =
      let limit : ltb (k * 4096) (add32 (boot.placement_address s.platform_state) 4096) ≡ false =
        ground (arith, ap boot.placement_address v.state_is) in
      (
        s,
        identity_map-round boot fuel (k * 4096) s false limit,
        subst (λ (i : ℕ). IsRound i s) (omega arith) v,
      )
  rounds (suc left) (suc fuel) k s h e v =
      let (s₁, run, v₁) = round fuel k s (omega arith) v in
      let (s', run', v') = rounds left fuel (suc k) s₁ (omega arith) (omega arith) v₁ in
      (s', run ∙ run', v')
