-- ===== src/Paging/Tests.antt =====
-- A kernel directory at 0x10000 with one table, and the kernel's kmalloc from 1 MiB on.
use loris.Base.{
  ℕ, suc, zero, ◌+◌, ◌/◌, ◌%◌, ◌^◌, ◌<◌, ◌≡◌, refl, inr, arith, Bool, true, false, some, none,
  Memory, read32, write32, ok, List, [], ◌∷◌, get_or, bit-zero, undefined,
}
use loris.Heap.Layout.{Heap}
use loris.Heap.Resize.{Pager}
use loris.Kmalloc.{Allocator, placement, kmalloc}
use loris.Frames.{Frames}
use loris.Frames.Bitmap.{used, IsBitmap}
use loris.Paging.Boot.{Boot, identity_map, enter_kernel_directory, kernel_boot}
use loris.Paging.Stuck.{enter_kernel_directory_undefined}
use loris.Paging.Rounds.{identity_page}
use loris.Paging.Identity.{CanMap, identity_map-IsIdentity}
use loris.Paging.{
  Platform, Machine, load_page, tables, tables_physical, pages, get_page, clone_directory,
}
use loris.Paging.Tables.{Apart, HasNewTable, table_index, page_index, get_page-HasNewTable}
use loris.Paging.Directories.{HoldsKernelTables, clone_directory-get_page}
use loris.Paging.Kernel.{kernel_platform}

abbrev no_pages : Pager
no_pages = record { State = ℕ; map_page = λ a k w p. ok p; unmap_page = λ a p. ok p }

abbrev platform : Platform (Allocator no_pages)
platform = kernel_platform no_pages 1 (λ src destination a. a)

abbrev start : Allocator no_pages
start = record { placement_address = 0x100010; kheap = none }

-- Place 5 of the directory holds the table at 0x20000.
abbrev memory : Memory
memory = write32 (write32 (λ _. 0) 0x10014 0x20000) 0x11014 0x20007

memory-lt : (x : ℕ) → memory x < 256
unfolding write32
memory-lt x = ground arith

read32-lt : (a : ℕ) → read32 memory a < 2 ^ 32
unfolding read32
read32-lt a = omega (arith, memory-lt a, memory-lt (a + 1), memory-lt (a + 2), memory-lt (a + 3))

abbrev zeros : ℕ → List ℕ
zeros zero = []
zeros (suc n) = 0 ∷ zeros n

abbrev all_free : Frames
all_free = record { nframes = 4096; words = zeros 32 }

abbrev machine : Machine (Allocator no_pages)
machine = record {
  memory = memory;
  frames = all_free;
  kernel_directory = 0x10000;
  current_directory = 0x10000;
  cr0 = 1;
  cr3 = 0;
  platform_state = start;
}

abbrev table : ℕ → ℕ
table j = read32 memory (tables 0x10000 j)

abbrev physical : ℕ → ℕ
physical j = read32 memory (tables_physical 0x10000 j)

table_given :
    platform.kmalloc 4096 true true start
    ≡ ok (0x101000, some 0x101000, record { placement_address = 0x102000; kheap = none })
unfolding kernel_platform kmalloc placement
table_given = refl

directory_given :
    platform.kmalloc 8196 true true start
    ≡ ok (0x101000, some 0x101000, record { placement_address = 0x103004; kheap = none })
unfolding kernel_platform kmalloc placement
directory_given = refl

missing : read32 memory (tables 0x10000 (table_index 0x1234567)) ≡ 0
unfolding read32 write32
missing = refl

get_page-HasNewTable_example :
    (s' : Machine (Allocator no_pages)) × (get_page platform 0x1234567 true 0x10000 machine
      ≡ ok (pages 0x101000 (page_index 0x1234567), s'))
    × HasNewTable 0x10000 (table_index 0x1234567) 0x101000 0x101000 memory s'.memory
    × ((make : Bool)
        → get_page platform 0x1234567 make 0x10000 s'
          ≡ ok (pages 0x101000 (page_index 0x1234567), s'))
get_page-HasNewTable_example =
    get_page-HasNewTable platform 0x1234567 0x10000 machine 0x101000 0x101000
      (record { placement_address = 0x102000; kheap = none }) table_given (omega arith)
      (omega arith) (omega arith) (omega arith) (omega arith) missing

holds : HoldsKernelTables 0x10000 0x10000 table physical memory
holds = record { table_is = λ j h. refl; physical_is = λ j h. refl; kernel_is = λ j h. inr refl }

clone_directory-get_page_example :
    (s' : Machine (Allocator no_pages)) × (p : ℕ) × (clone_directory platform 0x10000 machine
      ≡ ok (0x101000, s'))
    × (get_page platform 0x1401000 false 0x101000 s' ≡ ok (p, s'))
    × (get_page platform 0x1401000 false 0x10000 machine ≡ ok (p, machine))
clone_directory-get_page_example =
    clone_directory-get_page platform 0x10000 machine table physical 0x101000 0x101000
      (record { placement_address = 0x103004; kheap = none }) directory_given 0x1401000 holds
      (λ j. (read32-lt (tables 0x10000 j), read32-lt (tables_physical 0x10000 j))) (omega arith)
      (omega arith) (omega arith)

zero_word : (n i : ℕ) → get_or (zeros n) i 0 ≡ 0
zero_word zero i = refl
zero_word (suc n) zero = refl
zero_word (suc n) (suc i) = zero_word n i

all_free-used : (g : ℕ) → used all_free g ≡ 0
all_free-used g = rw (zero_word 32 (g / 32)) (bit-zero (g % 32))

all_free-IsBitmap : IsBitmap all_free
all_free-IsBitmap = record {
  in_width = λ i h. omega (arith, zero_word 32 i);
  addressable = omega arith;
}

-- What stands in the memory of the heap object.
abbrev no_heap : Heap
no_heap = record {
  index = record { elements = []; size = 0; max_size = 0 };
  start_address = 0;
  end_address = 0;
  max_address = 0;
  supervisor = false;
  readonly = false;
}

-- `initialise_paging` in front of the identity map, where the kernel ends at 0x100010: the bitmap, the
-- kernel directory at 0x101000 and the table of the heap at 0x104000 are taken, each by `kmalloc`.
abbrev boot : Boot (Allocator no_pages)
boot = kernel_boot no_pages 1 (λ src destination a. a) no_heap (λ _. 0) 0

abbrev bare_machine : Machine (Allocator no_pages)
bare_machine = record {
  memory = write32 (write32 (λ _. 0) 0x101C00 0x104000) 0x102C00 0x104007;
  frames = all_free;
  kernel_directory = 0x101000;
  current_directory = 0;
  cr0 = 1;
  cr3 = 0;
  platform_state = record { placement_address = 0x105000; kheap = none };
}

no_table_yet : read32 bare_machine.memory (tables 0x101000 0) ≡ 0
unfolding read32 write32
no_table_yet = refl

abbrev behind_table : Allocator no_pages
behind_table = record { placement_address = 0x107000; kheap = none }

can_map : CanMap boot bare_machine 0x106000 0x106000 behind_table
unfolding kernel_boot kernel_platform kmalloc placement
can_map = record {
  given = refl;
  new_fits = omega arith;
  nonnull = omega arith;
  phys_fits = omega arith;
  apart = omega arith;
  no_table = no_table_yet;
  before = omega arith;
  limit_fits = omega arith;
  bitmap = all_free-IsBitmap;
  free = λ g h. all_free-used g;
  in_range = λ g h. (omega arith, omega arith);
}

-- 0x108000 is the page behind the placement address.
identity_map-IsIdentity_example :
    (s' : Machine (Allocator no_pages)) × (identity_map boot 265 0 bare_machine ≡ ok s')
    × ((address : ℕ)
        → address < 0x108000
        → (get_page boot.platform address false 0x101000 s'
            ≡ ok (pages 0x106000 (address / 4096), s'))
          × (load_page s'.memory (pages 0x106000 (address / 4096)) ≡ identity_page (address / 4096))
          × (used s'.frames (address / 4096) ≡ 1))
    × ((x : ℕ)
        → Apart x 1 0x106000 4096
        → Apart x 1 (tables 0x101000 0) 4
        → Apart x 1 (tables_physical 0x101000 0) 4
        → s'.memory x ≡ bare_machine.memory x)
unfolding kernel_boot kernel_platform kmalloc placement
identity_map-IsIdentity_example =
    identity_map-IsIdentity boot bare_machine 0x106000 0x106000 behind_table can_map 264
      (omega arith)

enter_kernel_directory_undefined_example : enter_kernel_directory boot bare_machine ≡ undefined
enter_kernel_directory_undefined_example =
    enter_kernel_directory_undefined no_pages 0 (λ src destination a. a) no_heap (λ _. 0) 0
      bare_machine refl
