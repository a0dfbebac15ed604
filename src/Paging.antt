-- ===== src/Paging.antt =====
-- Page tables and directories, kernel/paging.cpp from `switch_page_directory` on. Tables and
-- directories are in memory; the frames are those of the module Frames.
pub mod Entries
pub mod Tables
pub mod Directories
pub mod Clones
pub mod Kernel
pub mod Boot
pub mod Rounds
pub mod Identity
pub mod HeapPages
pub mod Stuck
mod Tests
mod HeapTests
use loris.Base.{
  ℕ, zero, suc, ◌+◌, ◌*◌, ◌/◌, ◌%◌, ◌^◌, bit_or, Bool, true, false, Option, none, some, Memory,
  read32, write32, Run, ok, ◌>>=◌, from_option, add32, ◌==◌, if◌then◌else◌,
}
use loris.Strings.{memset}
use loris.Frames.{Page, Frames, alloc_frame}

-- What the code calls that stands elsewhere: `kmalloc`, with what it writes to `*phys`, and the
-- assembly routine `copy_page_physical`. `S` is all that these two work on; the structures that
-- `kmalloc` keeps lie apart from the tables.
pub record Platform (S : Type 0) : Type 0 where
  pub kmalloc : (size : ℕ) (align has_phys : Bool) → S → Run (ℕ × Option ℕ × S)
  pub copy_page_physical : (src destination : ℕ) → S → S

-- The globals, the registers that are set, and the memory.
pub record Machine (S : Type 0) : Type 0 where
  pub memory : Memory
  pub frames : Frames
  pub kernel_directory : ℕ
  pub current_directory : ℕ
  pub cr0 : ℕ
  pub cr3 : ℕ
  pub platform_state : S

-- `struct Page` in its four bytes, the bit fields from the low bit on.
unfoldable pub load_page : Memory → (page : ℕ) → Page
load_page m page =
    let word = read32 m page in
    record {
      present = word % 2;
      read_write = word / 2 % 2;
      user = word / 4 % 2;
      accessed = word / 8 % 2;
      dirty = word / 16 % 2;
      unused = word / 32 % 128;
      frame = word / 4096 % 2 ^ 20;
    }

unfoldable pub store_page : (page : ℕ) → Page → Memory → Memory
store_page page p m = write32 m page (
    p.present
    + p.read_write * 2
    + p.user * 4
    + p.accessed * 8
    + p.dirty * 16
    + p.unused * 32
    + p.frame * 4096)

-- The addresses of `dir->Tables[i]`, `dir->TablesPhysical[i]` and `dir->PhysicalAddress`.
abbrev pub tables : (dir i : ℕ) → ℕ
tables dir i = dir + 4 * i

abbrev pub tables_physical : (dir i : ℕ) → ℕ
tables_physical dir i = dir + 4096 + 4 * i

abbrev pub physical_address : (dir : ℕ) → ℕ
physical_address dir = dir + 8192

-- The address of `table->Pages[i]`.
abbrev pub pages : (table i : ℕ) → ℕ
pages table i = table + 4 * i

unfoldable pub switch_page_directory : {S : Type 0} → (dir : ℕ) → Machine S → Machine S
switch_page_directory dir s = record s {
  current_directory = dir;
  cr3 = read32 s.memory (physical_address dir);
  cr0 = bit_or s.cr0 0x80000000;
}

-- The flags that `clone_table` copies to a page.
unfoldable pub clone_flags : (src page : Page) → Page
clone_flags src page = record page {
  present = if src.present == 0 then page.present else 1;
  read_write = if src.read_write == 0 then page.read_write else 1;
  user = if src.user == 0 then page.user else 1;
  accessed = if src.accessed == 0 then page.accessed else 1;
  dirty = if src.dirty == 0 then page.dirty else 1;
}

module _ {S : Type 0} (platform : Platform S) where
  -- The result 0 is the null pointer. Without a write to `tmp` its value is undefined.
  unfoldable pub get_page : (address : ℕ) (make : Bool) (dir : ℕ) → Machine S → Run (ℕ × Machine S)
  get_page address make dir s =
      let number = address / 0x1000 in
      let table_idx = number / 1024 in
      if read32 s.memory (tables dir table_idx) == 0
      then (if make
          then (do
            (new, phys, rest) ← platform.kmalloc 4096 true true s.platform_state
            let m₁ = write32 s.memory (tables dir table_idx) new
            let m₂ = memset (read32 m₁ (tables dir table_idx)) 0 0x1000 m₁
            tmp ← from_option phys
            let m₃ = write32 m₂ (tables_physical dir table_idx) (bit_or tmp 7)
            ok (
              pages (read32 m₃ (tables dir table_idx)) (number % 1024),
              record s { memory = m₃; platform_state = rest },
            ))
          else ok (0, s))
      else ok (pages (read32 s.memory (tables dir table_idx)) (number % 1024), s)

  -- A round of the loop of `clone_table`. The new table does not overlap `src`.
  unfoldable pub clone_entry : (i table src : ℕ) → Machine S → Run (Machine S)
  clone_entry i table src s =
      let from = load_page s.memory (pages src i) in
      if from.frame == 0 then ok s else (do
        (page, frames') ← alloc_frame false false (load_page s.memory (pages table i)) s.frames
        let to = clone_flags from page
        ok (record s {
          memory = store_page (pages table i) to s.memory;
          frames = frames';
          platform_state =
              platform.copy_page_physical (from.frame * 0x1000) (to.frame * 0x1000)
                s.platform_state;
        }))

  -- The loop from `i` on, with `left` rounds left.
  unfoldable pub clone_entries : (left i table src : ℕ) → Machine S → Run (Machine S)
  clone_entries zero i table src s = ok s
  clone_entries (suc left) i table src s = do
    s' ← clone_entry i table src s
    clone_entries left (i + 1) table src s'

  -- The results are the table and what is written to `*physAddr`, if anything is. `memset` gets the
  -- size of a directory, 8196 bytes.
  unfoldable pub clone_table : (src : ℕ) → Machine S → Run (ℕ × Option ℕ × Machine S)
  clone_table src s = do
    (table, phys, rest) ← platform.kmalloc 4096 true true s.platform_state
    s' ←
        clone_entries 1024 0 table src
          (record s { memory = memset table 0 8196 s.memory; platform_state = rest })
    ok (table, phys, s')

  -- A round of the loop of `clone_directory`.
  unfoldable pub clone_slot : (i dir src : ℕ) → Machine S → Run (Machine S)
  clone_slot i dir src s =
      let table = read32 s.memory (tables src i) in
      let physical = read32 s.memory (tables_physical src i) in
      if table == 0
      then ok s
      else if read32 s.memory (tables s.kernel_directory i) == table
      then ok (record s {
        memory = write32 (write32 s.memory (tables dir i) table) (tables_physical dir i) physical;
      })
      else (do
        (table', phys, s') ← clone_table table s
        tmp ← from_option phys
        ok (record s' {
          memory =
              write32 (write32 s'.memory (tables dir i) table') (tables_physical dir i)
                (bit_or tmp 7);
        }))

  unfoldable pub clone_slots : (left i dir src : ℕ) → Machine S → Run (Machine S)
  clone_slots zero i dir src s = ok s
  clone_slots (suc left) i dir src s = do
    s' ← clone_slot i dir src s
    clone_slots left (i + 1) dir src s'

  unfoldable pub clone_directory : (src : ℕ) → Machine S → Run (ℕ × Machine S)
  clone_directory src s = do
    (dir, phys, rest) ← platform.kmalloc 8196 true true s.platform_state
    tmp ← from_option phys
    let m = write32 (memset dir 0 8196 s.memory) (physical_address dir) (add32 tmp 4096)
    s' ← clone_slots 1024 0 dir src (record s { memory = m; platform_state = rest })
    ok (dir, s')
