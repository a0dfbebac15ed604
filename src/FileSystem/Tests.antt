-- ===== src/FileSystem/Tests.antt =====
-- An image at 0x1000 with one file, "a", of three bytes.
use loris.Base.{
  ℕ, zero, suc, ◌+◌, ◌-◌, ◌^◌, ◌<◌, ◌≡◌, refl, inr, arith, min, Option, some, none, false, List, [],
  ◌∷◌, Memory, write, read32, write32, Run, ok, ◌>>=◌, u32, undefined,
}
use loris.Strings.Copy.{IsCopied}
use loris.Kmalloc.{Allocator, kmalloc, placement}
use loris.Heap.Resize.{Pager}
use loris.FileSystem.{read_fs, finddir_fs}
use loris.FileSystem.Text.{string_from}
use loris.FileSystem.Initrd.{
  Node, root, file, Initrd, InitrdNode, initrd_read, header_at, name_of, offset_of, length_of,
  node_at, file_node, directory_node, dev_name, initialise_initrd, driver,
}
use loris.FileSystem.Reading.{read_fs-IsCopied, read_fs_wraps}
use loris.FileSystem.Files.{IsImage, HasFiles, initialise_initrd-HasFiles, find_and_read}

abbrev image : Memory
image = write32 (write32 (write32 (write (λ _. 0) 0x1005 b'a') 0x1000 1) 0x1048 200) 0x104C 3

abbrev names : ℕ → List ℕ
names _ = b'a' ∷ []

names_there : (i : ℕ) → i < 1 → string_from 64 image (name_of (header_at 0x1004 i)) ≡ ok (names i)
unfolding string_from write32
names_there zero h = refl
names_there (suc i) h = absurd (omega arith)

nfiles_there : read32 image 0x1000 ≡ 1
unfolding read32 write32
nfiles_there = refl

image-IsImage : IsImage image 0x1000 1 names
image-IsImage = record { nfiles = nfiles_there; small = omega arith; names = names_there }

abbrev no_pages : Pager
no_pages = record { State = ℕ; map_page = λ a k w p. ok p; unmap_page = λ a p. ok p }

abbrev allocate : (size : ℕ) → Allocator no_pages → Run (ℕ × Allocator no_pages)
allocate size a =
    kmalloc no_pages 1 size false false a >>= λ (r : ℕ × Option ℕ × Allocator no_pages).
    ok (r.0, r.2)

abbrev placed_at : ℕ → Allocator no_pages
placed_at p = record { placement_address = p; kheap = none }

abbrev old_node : ℕ → InitrdNode
old_node _ = record {
  name = [];
  mask = 0;
  uid = 0;
  gid = 0;
  flags = 0;
  inode = 0;
  length = 0;
  impl = 0;
  read_handler = none;
  write_handler = none;
  open_handler = none;
  close_handler = none;
  readdir_handler = none;
  finddir_handler = none;
  ptr = none;
}

allocate_run :
    (p size : ℕ) → p + size < 2 ^ 32 → allocate size (placed_at p) ≡ ok (p, placed_at (p + size))
unfolding kmalloc placement
allocate_run p size h = let e : u32 (p + size) ≡ p + size = omega arith in rw e

-- The same ramdisk as it is after the start, from the theorem's own parts.
abbrev started :
    (s : Initrd) × (initialise_initrd allocate 0x1000 old_node
        (record { name = []; ino = 0 })
        image
        (placed_at 0x4000)
      ≡ ok (root, s, placed_at (0x4000 + 184 + 184 + 184)))
    × HasFiles image 0x1000 1 names s
started =
    initialise_initrd-HasFiles allocate 0x1000 1 names old_node (record { name = []; ino = 0 })
      image (placed_at 0x4000) (0x4000, placed_at (0x4000 + 184))
      (0x4000 + 184, placed_at (0x4000 + 184 + 184))
      (0x4000 + 184 + 184, placed_at (0x4000 + 184 + 184 + 184))
      (allocate_run 0x4000 184 (omega arith)) (allocate_run (0x4000 + 184) 184 (omega arith))
      (allocate_run (0x4000 + 184 + 184) 184 (omega arith)) image-IsImage

offset_there : offset_of image (header_at 0x1004 0) ≡ 200
unfolding read32 write32
offset_there = refl

length_there : length_of image (header_at 0x1004 0) ≡ 3
unfolding read32 write32
length_there = refl

find_and_read_example :
    (p : Node) × (m' : Memory) × (finddir_fs driver root (b'a' ∷ []) started.0
      ≡ ok (some p, started.0))
    × (read_fs driver p 1 5 0x3000 started.0
        ≡ ok (min 5 (length_of image (header_at 0x1004 0) - 1), record started.0 { memory = m' }))
    × IsCopied 0x3000
        (0x1000 + offset_of image (header_at 0x1004 0) + 1)
        0
        (min 5 (length_of image (header_at 0x1004 0) - 1))
        started.0.memory
        m'
find_and_read_example =
    find_and_read image 0x1000 1 names started.0 started.2 0 1 5 0x3000 (omega arith)
      (λ e. absurd (cc)) (λ k h. elim h [ ]) (omega arith) (omega (arith, offset_there))
      (omega (arith, offset_there, length_there)) (omega (arith, length_there))
      (inr (omega (arith, offset_there, length_there)))

-- A ramdisk whose offsets are already those in memory.
abbrev disk : Initrd
disk = record {
  memory = image;
  file_headers = 0x1004;
  initrd_root = directory_node [];
  initrd_dev = directory_node dev_name;
  root_nodes = file_node (b'a' ∷ []) 3 0 (old_node 0) ∷ [];
  nroot_nodes = 1;
  direntry = record { name = []; ino = 0 };
}

disk_file : node_at (file 0) disk ≡ ok (file_node (b'a' ∷ []) 3 0 (old_node 0))
unfolding node_at
disk_file = refl

disk_handler : (file_node (b'a' ∷ []) 3 0 (old_node 0)).read_handler ≡ some initrd_read
unfolding file_node
disk_handler = refl

disk_length : length_of image (header_at 0x1004 (file_node (b'a' ∷ []) 3 0 (old_node 0)).inode) ≡ 3
unfolding read32 write32 file_node
disk_length = refl

disk_offset :
    offset_of image (header_at 0x1004 (file_node (b'a' ∷ []) 3 0 (old_node 0)).inode) ≡ 200
unfolding read32 write32 file_node
disk_offset = refl

abbrev disk_node : InitrdNode
disk_node = file_node (b'a' ∷ []) 3 0 (old_node 0)

read_fs-IsCopied_example :
    (m' : Memory) × (read_fs driver (file 0) 1 5 0x3000 disk
      ≡ ok (
        min 5 (length_of image (header_at 0x1004 disk_node.inode) - 1),
        record disk { memory = m' },
      ))
    × IsCopied 0x3000
        (offset_of image (header_at 0x1004 disk_node.inode) + 1)
        0
        (min 5 (length_of image (header_at 0x1004 disk_node.inode) - 1))
        image
        m'
read_fs-IsCopied_example =
    read_fs-IsCopied (file 0) disk_node 1 5 0x3000 disk disk_file disk_handler (omega arith)
      (omega (arith, disk_offset)) (omega (arith, disk_offset, disk_length))
      (omega (arith, disk_length)) (inr (omega (arith, disk_offset, disk_length)))

read_fs_wraps_example :
    (length_of image (header_at 0x1004 disk_node.inode) - 2 < 0xFFFFFFFF)
    × (read_fs driver (file 0) 2 0xFFFFFFFF 0x3000 disk ≡ undefined)
read_fs_wraps_example =
    read_fs_wraps (file 0) disk_node 2 0xFFFFFFFF 0x3000 disk disk_file disk_handler
      (omega (arith, disk_length)) (omega (arith, disk_length)) (omega arith) (omega arith)
      (omega (arith, disk_length)) (omega (arith, disk_offset)) (omega (arith, disk_offset))
