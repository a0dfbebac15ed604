-- ===== src/Paging/Identity.antt =====
-- The identity map of `initialise_paging`: the pages of the memory in use own the frames of their own
-- addresses.
use loris.Base.{
  ℕ, suc, ◌+◌, ◌*◌, ◌/◌, ◌^◌, ◌≤◌, ◌<◌, ◌≡◌, ◌≢◌, refl, sym, ap, ◌∙◌, arith, true, false, some,
  read32, ok, ◌>>=◌, add32, ltb,
}
use loris.Frames.Bitmap.{used, InRange, IsBitmap}
use loris.Paging.{Machine, load_page, tables, tables_physical, pages, get_page}
use loris.Paging.Tables.{
  Apart, HasNewTable, table_index, page_index, get_page_found, get_page-with_table, with_table,
  with_table-HasNewTable,
}
use loris.Paging.Boot.{Boot, alloc_frame_at, identity_map}
use loris.Paging.Rounds.{identity_page, IsRound, identity_map-round, rounds}

-- The identity map starts where the kernel directory has no table for the lowest 4 MiB, kmalloc has one
-- for it that does not overlap the directory, and the frames below the limit, a page behind the
-- placement address as kmalloc then leaves it, are free.
pub record CanMap {S : Type 0} (boot : Boot S) (s : Machine S) (new phys : ℕ) (rest : S)
    : Type 0 where
  pub given : boot.platform.kmalloc 4096 true true s.platform_state ≡ ok (new, some phys, rest)
  pub new_fits : new < 2 ^ 32
  pub nonnull : new ≢ 0
  pub phys_fits : phys < 2 ^ 32
  pub apart : Apart new 4096 s.kernel_directory 8196
  pub no_table : read32 s.memory (tables s.kernel_directory 0) ≡ 0
  pub before : boot.placement_address s.platform_state + 4096 < 2 ^ 32
  pub limit_fits : boot.placement_address rest + 4096 ≤ 1024 * 4096
  pub bitmap : IsBitmap s.frames
  pub free : (g : ℕ) → g * 4096 < boot.placement_address rest + 4096 → used s.frames g ≡ 0
  pub in_range : (g : ℕ) → g * 4096 < boot.placement_address rest + 4096 → InRange s.frames g

module _ {S : Type 0} (boot : Boot S) (s : Machine S) (new phys : ℕ) (rest : S)
    (can : CanMap boot s new phys rest) where
  abbrev limit : ℕ
  limit = boot.placement_address rest + 4096

  abbrev dir : ℕ
  dir = s.kernel_directory

  abbrev page_count : ℕ
  page_count = (boot.placement_address rest + 4096 + 4095) / 4096

  few_pages : page_count ≤ 1024
  few_pages = omega (arith, can.limit_fits)

  limit_word : boot.placement_address rest + 4096 < 2 ^ 32
  limit_word = omega (arith, can.limit_fits)

  -- The machine with the new table.
  abbrev ready : Machine S
  ready = record s { memory = with_table dir 0 new phys s.memory; platform_state = rest }

  table_there : HasNewTable dir 0 new phys s.memory ready.memory
  table_there =
      with_table-HasNewTable dir 0 new phys s.memory (omega arith) can.new_fits can.phys_fits
        can.apart

  identity_map-ready :
      (fuel : ℕ) → identity_map boot (suc fuel) 0 s ≡ identity_map boot (suc fuel) 0 ready
  identity_map-ready fuel =
      let more : ltb 0 (add32 (boot.placement_address s.platform_state) 4096) ≡ true =
        ground (arith, can.before) in
      let more' : ltb 0 (add32 (boot.placement_address rest) 4096) ≡ true =
        ground (arith, can.limit_fits) in
      let made =
        get_page-with_table boot.platform 0 dir s new phys rest can.given can.new_fits can.apart
          (omega arith) can.phys_fits can.no_table in
      let found = get_page_found boot.platform 0 dir ready true new table_there.table can.nonnull in
      identity_map-round boot fuel 0 s true more
      ∙ ap (λ m. m >>= λ (page, s'). alloc_frame_at boot page s' >>= identity_map boot fuel 4096)
          (made ∙ sym found)
      ∙ sym (identity_map-round boot fuel 0 ready true more')

  ready-IsRound :
      IsRound boot dir new page_count rest ready.memory can.nonnull can.apart few_pages limit_word
        refl 0 ready
  ready-IsRound = record {
    state_is = refl;
    directory_is = refl;
    table_is = table_there.table;
    pages_are = record {
      mapped = λ j h. elim h [ ];
      unmapped = λ j p q. table_there.entries j (omega (arith, can.limit_fits));
      bitmap = can.bitmap;
      taken = λ g h. elim h [ ];
      free = λ g p q. can.free g (omega arith);
      in_range = λ g h. can.in_range g (omega arith);
    };
    kept = λ x out. refl;
  }

  -- Where the kernel directory has no table for the lowest 4 MiB, kmalloc gives a page for it that
  -- is not null and does not overlap the directory, the limit, a page behind the placement address
  -- as kmalloc then leaves it, is at most 4 MiB, and the frames below the limit are free and in the
  -- array of the bitmap, which fits in 32-bit addresses, the loop of the identity map ends with a
  -- round of fuel for each page: `get_page` then finds the page of every address below the limit,
  -- and it is present, read-only, for users, and has the frame of that very address; those frames
  -- are used, and no byte outside the new table and its two places in the directory has changed.
  pub identity_map-IsIdentity :
      (fuel : ℕ)
      → limit ≤ fuel * 4096
      → (s' : Machine S) × (identity_map boot (suc fuel) 0 s ≡ ok s')
        × ((address : ℕ)
            → address < limit
            → (get_page boot.platform address false dir s' ≡ ok (pages new (address / 4096), s'))
              × (load_page s'.memory (pages new (address / 4096)) ≡ identity_page (address / 4096))
              × (used s'.frames (address / 4096) ≡ 1))
        × ((x : ℕ)
            → Apart x 1 new 4096
            → Apart x 1 (tables dir 0) 4
            → Apart x 1 (tables_physical dir 0) 4
            → s'.memory x ≡ s.memory x)
  identity_map-IsIdentity fuel enough =
      let (s', run, v) =
        rounds boot dir new page_count rest ready.memory can.nonnull can.apart few_pages limit_word
          refl page_count (suc fuel) 0 ready (omega arith) (omega arith) ready-IsRound in
      (
        s',
        identity_map-ready fuel ∙ run,
        λ address below.
            let first : table_index address ≡ 0 = omega (arith, can.limit_fits) in
            let second : page_index address ≡ address / 4096 = omega (arith, can.limit_fits) in
            (
              get_page_found boot.platform address dir s' false new
                    (ap (λ (i : ℕ). read32 s'.memory (tables dir i)) first ∙ v.table_is) can.nonnull
                  ∙ ap (λ (i : ℕ). ok (pages new i, s')) second,
              v.pages_are.mapped (address / 4096) (omega arith),
              v.pages_are.taken (address / 4096) (omega arith),
            ),
        λ x h₁ h₂ h₃. v.kept x (omega arith) ∙ table_there.kept x h₁ h₂ h₃,
      )
