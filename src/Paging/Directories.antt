-- ===== src/Paging/Directories.antt =====
-- `clone_directory` where all tables are the kernel's, as in its call from `initialise_paging`.
use mathlib.Core.Path.{subst}
use native.Mathlib.Decide.{ℕ_discrete}
use loris.Base.{
  ℕ, zero, suc, ◌+◌, ◌*◌, ◌^◌, ◌≤◌, ◌<◌, ◌≡◌, refl, sym, ◌∙◌, ◌⊎◌, inl, inr, arith, true, false,
  some, Memory, read32, write32, write32_outside, read32_same, read32-write32_self,
  read32-write32_ne, ok, add32, ◌==◌, if◌then◌else◌,
}
use loris.Strings.{memset}
use loris.Strings.Fill.{memset_lem}
use loris.Paging.{
  Platform, Machine, tables, tables_physical, physical_address, clone_slot, clone_slots,
  clone_directory, get_page, pages,
}
use loris.Paging.Entries.{read32-memset}
use loris.Paging.Tables.{Apart, table_index, page_index, get_page_found, get_page_missing}

-- The directory `src` holds the tables `table` with the physical addresses `physical`, and all of them
-- are the kernel's.
pub record HoldsKernelTables (kernel src : ℕ) (table physical : ℕ → ℕ) (m : Memory) : Type 0 where
  pub table_is : (j : ℕ) → j < 1024 → read32 m (tables src j) ≡ table j
  pub physical_is : (j : ℕ) → j < 1024 → read32 m (tables_physical src j) ≡ physical j
  pub kernel_is : (j : ℕ) → j < 1024 → (table j ≡ 0) ⊎ (read32 m (tables kernel j) ≡ table j)

-- The places from `lo` on of the directory are those of `table`, each with its physical address
-- where there is a table, and 0 otherwise.
pub record HasTables (dir lo : ℕ) (table physical : ℕ → ℕ) (m : Memory) : Type 0 where
  pub table_is : (j : ℕ) → lo ≤ j → j < 1024 → read32 m (tables dir j) ≡ table j
  pub physical_is :
      (j : ℕ)
      → lo ≤ j
      → j < 1024
      → read32 m (tables_physical dir j) ≡ (if table j == 0 then 0 else physical j)

module _ {S : Type 0} (platform : Platform S) (dir src : ℕ) (table physical : ℕ → ℕ)
    (small : (j : ℕ) → (table j < 2 ^ 32) × (physical j < 2 ^ 32)) (s : Machine S)
    (apart : Apart dir 8196 src 8196) (apart_kernel : Apart dir 8196 s.kernel_directory 8196) where
  -- Outside the places from `i` on, the memories agree.
  abbrev KeptBelow : (i : ℕ) → Memory → Memory → Type 0
  KeptBelow i m m' =
      (x : ℕ)
      → (x < dir + 4 * i) ⊎ (((dir + 4096 ≤ x) × (x < dir + 4096 + 4 * i)) ⊎ (dir + 8192 ≤ x))
      → m' x ≡ m x

  abbrev slot_memory : (i : ℕ) → Memory → Memory
  slot_memory i m =
      if table i == 0
      then m
      else write32 (write32 m (tables dir i) (table i)) (tables_physical dir i) (physical i)

  slot_memory_outside :
      (i x : ℕ) (m : Memory)
      → Apart x 1 (tables dir i) 4
      → Apart x 1 (tables_physical dir i) 4
      → slot_memory i m x ≡ m x
  slot_memory_outside i x m h h' = elim (ℕ_discrete (table i) 0) [
    | yes e ↦ rw e refl
    | no ne ↦
        let test : (table i == 0) ≡ false = ground arith in
        rw test (
          write32_outside (write32 m (tables dir i) (table i)) (tables_physical dir i) (physical i)
            x (omega arith)
          ∙ write32_outside m (tables dir i) (table i) x (omega arith))
  ]

  slot_memory_table :
      (i : ℕ) (m : Memory)
      → i < 1024
      → read32 m (tables dir i) ≡ 0
      → read32 (slot_memory i m) (tables dir i) ≡ table i
  slot_memory_table i m h z = elim (ℕ_discrete (table i) 0) [
    | yes e ↦ rw e z
    | no ne ↦
        let test : (table i == 0) ≡ false = ground arith in
        rw test (
          read32-write32_ne (write32 m (tables dir i) (table i)) (tables_physical dir i)
            (tables dir i) (physical i) (omega arith)
          ∙ read32-write32_self m (tables dir i) (table i) (small i).0)
  ]

  slot_memory_physical :
      (i : ℕ) (m : Memory)
      → read32 m (tables_physical dir i) ≡ 0
      → read32 (slot_memory i m) (tables_physical dir i) ≡ (if table i == 0 then 0 else physical i)
  slot_memory_physical i m z = elim (ℕ_discrete (table i) 0) [
    | yes e ↦ rw e z
    | no ne ↦
        let test : (table i == 0) ≡ false = ground arith in
        rw test (
          read32-write32_self (write32 m (tables dir i) (table i)) (tables_physical dir i)
            (physical i) (small i).1)
  ]

  abbrev Holds : Memory → Type 0
  Holds m = HoldsKernelTables s.kernel_directory src table physical m

  abbrev with_memory : Memory → Machine S
  with_memory m = record s { memory = m }

  Holds-slot_memory : (i : ℕ) (m : Memory) → i < 1024 → Holds m → Holds (slot_memory i m)
  Holds-slot_memory i m hi h = record {
    table_is = λ j hj. kept (tables src j) (omega arith) ∙ h.table_is j hj;
    physical_is = λ j hj. kept (tables_physical src j) (omega arith) ∙ h.physical_is j hj;
    kernel_is = λ j hj. elim (h.kernel_is j hj) [
      | inl z ↦ inl z
      | inr e ↦ inr (kept (tables s.kernel_directory j) (omega arith) ∙ e)
    ];
  }
    where
      kept :
          (a : ℕ)
          → (Apart a 4 (tables dir i) 4) × (Apart a 4 (tables_physical dir i) 4)
          → read32 (slot_memory i m) a ≡ read32 m a
      kept a out =
          read32_same m (slot_memory i m) a
            (λ x p q. slot_memory_outside i x m (omega (arith, out.0)) (omega (arith, out.1)))

  clone_slot-slot_memory :
      (i : ℕ) (m : Memory)
      → i < 1024
      → Holds m
      → clone_slot platform i dir src (with_memory m) ≡ ok (with_memory (slot_memory i m))
  unfolding clone_slot
  clone_slot-slot_memory i m hi h = elim (ℕ_discrete (table i) 0) [
    | yes z ↦ let e : read32 m (tables src i) ≡ 0 = h.table_is i hi ∙ z in rw (e, z) refl
    | no ne ↦
        let test : (table i == 0) ≡ false = ground arith in
        let kernel : read32 m (tables s.kernel_directory i) ≡ table i = elim (h.kernel_is i hi) [
          | inl z ↦ absurd (ne z)
          | inr e ↦ e
        ] in
        let same : (table i == table i) ≡ true = ground arith in
        rw (h.table_is i hi, h.physical_is i hi, test, kernel, same) refl
  ]

  -- The places from `i` on are still clear.
  abbrev IsClear : (i : ℕ) → Memory → Type 0
  IsClear i m =
      (j : ℕ)
      → i ≤ j
      → j < 1024
      → (read32 m (tables dir j) ≡ 0) × (read32 m (tables_physical dir j) ≡ 0)

  -- Slot `i` is done when the later slots are not touched.
  HasTables-slot :
      (i : ℕ) (m m' : Memory)
      → i < 1024
      → IsClear i m
      → KeptBelow (i + 1) (slot_memory i m) m'
      → (read32 m' (tables dir i) ≡ table i)
        × (read32 m' (tables_physical dir i) ≡ (if table i == 0 then 0 else physical i))
  HasTables-slot i m m' hi clear kept = (
    read32_same (slot_memory i m) m' (tables dir i) (λ x p q. kept x (omega arith))
        ∙ slot_memory_table i m hi (clear i (omega arith) hi).0,
    read32_same (slot_memory i m) m' (tables_physical dir i) (λ x p q. kept x (omega arith))
        ∙ slot_memory_physical i m (clear i (omega arith) hi).1,
  )

  clone_slots-HasTables :
      (left i : ℕ) (m : Memory)
      → i + left ≡ 1024
      → Holds m
      → IsClear i m
      → (m' : Memory) × (clone_slots platform left i dir src (with_memory m) ≡ ok (with_memory m'))
        × HasTables dir i table physical m'
        × KeptBelow i m m'
  unfolding clone_slots
  clone_slots-HasTables zero i m e h clear = (
    m,
    refl,
    record {
      table_is = λ j p q. absurd (omega arith);
      physical_is = λ j p q. absurd (omega arith);
    },
    λ x out. refl,
  )
  clone_slots-HasTables (suc left) i m e h clear =
      let m₁ = slot_memory i m in
      let (m', run, has, kept) =
        clone_slots-HasTables left (i + 1) m₁ (omega arith) (Holds-slot_memory i m (omega arith) h)
          (still i m (omega arith) clear) in
      let done = HasTables-slot i m m' (omega arith) clear kept in
      (
        m',
        rw (clone_slot-slot_memory i m (omega arith) h) run,
        record {
          table_is = λ j p q. elim (ℕ_discrete j i) [
            | yes same ↦ subst (λ (k : ℕ). read32 m' (tables dir k) ≡ table k) (sym same) done.0
            | no ne ↦ has.table_is j (omega arith) q
          ];
          physical_is = λ j p q. elim (ℕ_discrete j i) [
            | yes same ↦
                subst
                  (λ (k : ℕ).
                    read32 m' (tables_physical dir k) ≡ (if table k == 0 then 0 else physical k))
                  (sym same) done.1
            | no ne ↦ has.physical_is j (omega arith) q
          ];
        },
        λ x out. kept x (omega arith) ∙ slot_memory_outside i x m (omega arith) (omega arith),
      )
    where
      still : (i : ℕ) (m : Memory) → i < 1024 → IsClear i m → IsClear (i + 1) (slot_memory i m)
      still i m hi clear j le lt = (
        read32_same m (slot_memory i m) (tables dir j)
              (λ x p q. slot_memory_outside i x m (omega arith) (omega arith))
            ∙ (clear j (omega arith) lt).0,
        read32_same m (slot_memory i m) (tables_physical dir j)
              (λ x p q. slot_memory_outside i x m (omega arith) (omega arith))
            ∙ (clear j (omega arith) lt).1,
      )

module _ {S : Type 0} (platform : Platform S) (src : ℕ) (s : Machine S) (table physical : ℕ → ℕ)
    (dir phys : ℕ) (rest : S)
    (given : platform.kmalloc 8196 true true s.platform_state ≡ ok (dir, some phys, rest)) where
  abbrev cleared : Memory
  cleared = write32 (memset dir 0 8196 s.memory) (physical_address dir) (add32 phys 4096)

  cleared_outside : (x : ℕ) → Apart x 1 dir 8196 → cleared x ≡ s.memory x
  cleared_outside x out =
      write32_outside (memset dir 0 8196 s.memory) (physical_address dir) (add32 phys 4096) x
        (omega arith)
      ∙ (memset_lem dir 0 8196 s.memory).1 x (omega arith)

  cleared_same : (a : ℕ) → Apart a 4 dir 8196 → read32 cleared a ≡ read32 s.memory a
  cleared_same a out = read32_same s.memory cleared a (λ x p q. cleared_outside x (omega arith))

  cleared_zero : (a : ℕ) → dir ≤ a → a + 4 ≤ physical_address dir → read32 cleared a ≡ 0
  cleared_zero a p q =
      read32-write32_ne (memset dir 0 8196 s.memory) (physical_address dir) a (add32 phys 4096)
        (omega arith)
      ∙ read32-memset dir 8196 a s.memory (omega arith) (omega arith)

  -- Cloning a directory all of whose tables are the kernel's, into memory that overlaps neither of the
  -- two, returns a directory with the same tables and the same physical addresses of them, 0 where there
  -- is no table, and its own physical address, that of `tablesPhysical`; no other memory, no frame
  -- and nothing else of the machine changes.
  pub clone_directory-HasTables :
      HoldsKernelTables s.kernel_directory src table physical s.memory
      → ((j : ℕ) → (table j < 2 ^ 32) × (physical j < 2 ^ 32))
      → Apart dir 8196 src 8196
      → Apart dir 8196 s.kernel_directory 8196
      → (m' : Memory) × (clone_directory platform src s
          ≡ ok (dir, record s { memory = m'; platform_state = rest }))
        × HasTables dir 0 table physical m'
        × (read32 m' (physical_address dir) ≡ add32 phys 4096)
        × ((x : ℕ) → Apart x 1 dir 8196 → m' x ≡ s.memory x)
  unfolding clone_directory
  clone_directory-HasTables h small apart apart_kernel =
      let (m', run, has, kept) =
        clone_slots-HasTables platform dir src table physical small
          (record s { platform_state = rest }) apart apart_kernel 1024 0 cleared refl
          (record {
            table_is = λ j hj. cleared_same (tables src j) (omega arith) ∙ h.table_is j hj;
            physical_is =
                λ j hj. cleared_same (tables_physical src j) (omega arith) ∙ h.physical_is j hj;
            kernel_is = λ j hj. elim (h.kernel_is j hj) [
              | inl z ↦ inl z
              | inr e ↦ inr (cleared_same (tables s.kernel_directory j) (omega arith) ∙ e)
            ];
          })
          (λ j p hj. (
            cleared_zero (tables dir j) (omega arith) (omega arith),
            cleared_zero (tables_physical dir j) (omega arith) (omega arith),
          )) in
      (
        m',
        rw (given, run) refl,
        has,
        read32_same cleared m' (physical_address dir) (λ x p q. kept x (omega arith))
            ∙ read32-write32_self (memset dir 0 8196 s.memory) (physical_address dir)
                (add32 phys 4096) (omega arith),
        λ x out. kept x (omega arith) ∙ cleared_outside x out,
      )

  -- Where all tables of a directory are the kernel's, its clone, in memory that overlaps neither of the
  -- two, is equivalent to it: for every address of 32 bits, `get_page` without `make` finds the same
  -- page in both, or none in both, and changes nothing.
  pub clone_directory-get_page :
      (address : ℕ)
      → HoldsKernelTables s.kernel_directory src table physical s.memory
      → ((j : ℕ) → (table j < 2 ^ 32) × (physical j < 2 ^ 32))
      → Apart dir 8196 src 8196
      → Apart dir 8196 s.kernel_directory 8196
      → address < 2 ^ 32
      → (s' : Machine S) × (p : ℕ) × (clone_directory platform src s ≡ ok (dir, s'))
        × (get_page platform address false dir s' ≡ ok (p, s'))
        × (get_page platform address false src s ≡ ok (p, s))
  clone_directory-get_page address h small apart apart_kernel ha =
      let (m', run, has, physical_is, kept) =
        clone_directory-HasTables h small apart apart_kernel in
      let s' : Machine S = record s { memory = m'; platform_state = rest } in
      let k = table_index address in
      let in_clone : read32 m' (tables dir k) ≡ table k =
        has.table_is k (omega arith) (omega arith) in
      let in_source : read32 s.memory (tables src k) ≡ table k = h.table_is k (omega arith) in
      elim (ℕ_discrete (table k) 0) [
        | yes z ↦ (
          s',
          0,
          run,
          get_page_missing platform address dir s' (in_clone ∙ z),
          get_page_missing platform address src s (in_source ∙ z),
        )
        | no ne ↦ (
          s',
          pages (table k) (page_index address),
          run,
          get_page_found platform address dir s' false (table k) in_clone ne,
          get_page_found platform address src s false (table k) in_source ne,
        )
      ]
