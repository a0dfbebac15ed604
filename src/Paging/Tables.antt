-- ===== src/Paging/Tables.antt =====
-- `get_page`: the table that it makes, and the page that it finds again.
use loris.Base.{
  ℕ, ◌+◌, ◌/◌, ◌%◌, ◌^◌, ◌≤◌, ◌<◌, ◌≡◌, ◌≢◌, refl, ◌∙◌, ◌⊎◌, arith, bit_or, bit_or-lt, Bool, true,
  false, some, Memory, read32, write32, write32_outside, read32-write32_self, read32-write32_ne, ok,
  ◌==◌,
}
use loris.Strings.{memset}
use loris.Strings.Fill.{memset_lem}
use loris.Paging.{Platform, Machine, load_page, tables, tables_physical, pages, get_page}
use loris.Paging.Entries.{blank, load_page-memset, load_page_same, read32-memset_outside}

-- The place of the table for an address in a directory, and of the page in it.
abbrev pub table_index : ℕ → ℕ
table_index address = address / 0x1000 / 1024

abbrev pub page_index : ℕ → ℕ
page_index address = address / 0x1000 % 1024

-- The two ranges of memory have no byte in common.
abbrev pub Apart : (a n b n' : ℕ) → Type 0
Apart a n b n' = (a + n ≤ b) ⊎ (b + n' ≤ a)

-- What became of the memory when the directory got a new table for its place `k`.
pub record HasNewTable (dir k new phys : ℕ) (m m' : Memory) : Type 0 where
  pub table : read32 m' (tables dir k) ≡ new
  pub physical : read32 m' (tables_physical dir k) ≡ bit_or phys 7
  pub entries : (j : ℕ) → j < 1024 → load_page m' (pages new j) ≡ blank
  pub kept :
      (x : ℕ)
      → Apart x 1 new 4096
      → Apart x 1 (tables dir k) 4
      → Apart x 1 (tables_physical dir k) 4
      → m' x ≡ m x

module _ (dir k new phys : ℕ) (m : Memory) where
  abbrev linked : Memory
  linked = write32 m (tables dir k) new

  abbrev pub with_table : Memory
  with_table = write32 (memset new 0 0x1000 linked) (tables_physical dir k) (bit_or phys 7)

  pub with_table-HasNewTable :
      k < 1024
      → new < 2 ^ 32
      → phys < 2 ^ 32
      → Apart new 4096 dir 8196
      → HasNewTable dir k new phys m with_table
  with_table-HasNewTable hk hn hp apart = record {
    table =
        read32-write32_ne (memset new 0 0x1000 linked) (tables_physical dir k) (tables dir k)
          (bit_or phys 7) (omega arith)
        ∙ read32-memset_outside new 0x1000 (tables dir k) linked (omega arith)
        ∙ read32-write32_self m (tables dir k) new hn;
    physical =
        read32-write32_self (memset new 0 0x1000 linked) (tables_physical dir k) (bit_or phys 7)
          (bit_or-lt 32 phys 7 hp (omega arith));
    entries = λ j h.
        load_page_same (memset new 0 0x1000 linked) with_table (pages new j) (λ x p q.
          write32_outside (memset new 0 0x1000 linked) (tables_physical dir k) (bit_or phys 7) x
            (omega arith))
        ∙ load_page-memset new 0x1000 (pages new j) linked (omega arith) (omega arith);
    kept = λ x h₁ h₂ h₃.
        write32_outside (memset new 0 0x1000 linked) (tables_physical dir k) (bit_or phys 7) x
          (omega arith)
        ∙ (memset_lem new 0 0x1000 linked).1 x (omega arith)
        ∙ write32_outside m (tables dir k) new x (omega arith);
  }

module _ {S : Type 0} (platform : Platform S) (address dir : ℕ) (s : Machine S) where
  -- A page whose table is there.
  pub get_page_found :
      (make : Bool) (table : ℕ)
      → read32 s.memory (tables dir (table_index address)) ≡ table
      → table ≢ 0
      → get_page platform address make dir s ≡ ok (pages table (page_index address), s)
  unfolding get_page
  get_page_found make table e ne =
      let test : (table == 0) ≡ false = ground arith in rw (e, test) refl

  pub get_page_missing :
      read32 s.memory (tables dir (table_index address)) ≡ 0
      → get_page platform address false dir s ≡ ok (0, s)
  unfolding get_page
  get_page_missing e = rw e refl

  module _ (new phys : ℕ) (rest : S)
      (given : platform.kmalloc 4096 true true s.platform_state ≡ ok (new, some phys, rest)) where
    pub get_page-with_table :
        new < 2 ^ 32
        → Apart new 4096 dir 8196
        → address < 2 ^ 32
        → phys < 2 ^ 32
        → read32 s.memory (tables dir (table_index address)) ≡ 0
        → get_page platform address true dir s
          ≡ ok (
            pages new (page_index address),
            record s {
              memory = with_table dir (table_index address) new phys s.memory;
              platform_state = rest;
            },
          )
    unfolding get_page
    get_page-with_table hn apart ha hp e =
        let k = table_index address in
        let own : read32 (linked dir k new phys s.memory) (tables dir k) ≡ new =
          read32-write32_self s.memory (tables dir k) new hn in
        let again : read32 (with_table dir k new phys s.memory) (tables dir k) ≡ new =
          (with_table-HasNewTable dir k new phys s.memory (omega arith) hn hp apart).table in
        rw (e, given, own, again) refl

    -- Where the directory has no table for the address, and `kmalloc` gives one that does not overlap the
    -- directory, `get_page` with `make` returns the page in the new table. The directory has the table
    -- and its physical address with the three flags set, all pages of the table are blank, no other
    -- memory changes; from then on `get_page` finds the same page, with `make` or without, and changes
    -- nothing.
    pub get_page-HasNewTable :
        new < 2 ^ 32
        → new ≢ 0
        → phys < 2 ^ 32
        → Apart new 4096 dir 8196
        → address < 2 ^ 32
        → read32 s.memory (tables dir (table_index address)) ≡ 0
        → (s' : Machine S) × (get_page platform address true dir s
            ≡ ok (pages new (page_index address), s'))
          × HasNewTable dir (table_index address) new phys s.memory s'.memory
          × ((make : Bool)
              → get_page platform address make dir s' ≡ ok (pages new (page_index address), s'))
    get_page-HasNewTable hn ne hp apart ha e =
        let k = table_index address in
        let s' : Machine S = record s {
          memory = with_table dir k new phys s.memory;
          platform_state = rest;
        } in
        let has = with_table-HasNewTable dir k new phys s.memory (omega arith) hn hp apart in
        (s', get_page-with_table hn apart ha hp e, has, λ make. again make has.table ne)
      where
        again :
            (make : Bool)
            → read32
                (with_table dir (table_index address) new phys s.memory)
                (tables dir (table_index address))
              ≡ new
            → new ≢ 0
            → get_page platform address make dir (record s {
              memory = with_table dir (table_index address) new phys s.memory;
              platform_state = rest;
            })
              ≡ ok (
                pages new (page_index address),
                record s {
                  memory = with_table dir (table_index address) new phys s.memory;
                  platform_state = rest;
                },
              )
        again make e ne =
            let test : (new == 0) ≡ false = ground arith in unfold get_page in rw (e, test) refl
