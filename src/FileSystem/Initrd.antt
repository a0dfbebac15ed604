-- ===== src/FileSystem/Initrd.antt =====
-- The initial ramdisk, kernel/FIleSystem/initrd.cpp. Its image is in memory; its nodes are records.
use loris.Base.{
  ℕ, zero, suc, ◌+◌, ◌*◌, Bool, true, false, ◌&&◌, Option, none, some, List, [], ◌∷◌, Memory,
  read32, write32, Run, ok, undefined, ◌>>=◌, load, add32, sub32, u32, ltb, leb, ◌==◌,
  if◌then◌else◌, ◌^◌,
}
use loris.Strings.{memcpy}
use loris.FileSystem.{Dirent, FsNode, Driver, fs_file, fs_directory}
use loris.FileSystem.Text.{string_from, same_text}

-- The functions that the nodes point to.
pub data Function : Type 0 where
  initrd_read initrd_readdir initrd_finddir : Function

-- `initrd_root`, `initrd_dev`, and `&root_nodes[i]`.
pub data Node : Type 0 where
  root dev : Node
  file : ℕ → Node

abbrev pub InitrdNode : Type 0
InitrdNode = FsNode Function Node

-- The globals, with the memory that holds the image. `file_headers` is an address.
pub record Initrd : Type 0 where
  pub memory : Memory
  pub file_headers : ℕ
  pub initrd_root : InitrdNode
  pub initrd_dev : InitrdNode
  pub root_nodes : List InitrdNode
  pub nroot_nodes : ℕ
  pub direntry : Dirent

-- `initrd_file_header_t`: `magic` at 0, `name` at 1, `offset` at 68, `length` at 72, 76 bytes.
abbrev pub header_at : (file_headers i : ℕ) → ℕ
header_at file_headers i = file_headers + 76 * i

abbrev pub name_of : ℕ → ℕ
name_of header = header + 1

abbrev pub offset_of : Memory → ℕ → ℕ
offset_of m header = read32 m (header + 68)

abbrev pub length_of : Memory → ℕ → ℕ
length_of m header = read32 m (header + 72)

-- What a pointer to a node points to.
unfoldable pub node_at : Node → Initrd → Run InitrdNode
node_at root s = ok (s.initrd_root)
node_at dev s = ok (s.initrd_dev)
node_at (file i) s = load s.root_nodes i

-- `initrd_read`. A `memcpy` that leaves the 32-bit address space is undefined.
unfoldable pub read_file : Node → (offset size buffer : ℕ) → Initrd → Run (ℕ × Initrd)
read_file p offset size buffer s = do
  n ← node_at p s
  let header = header_at s.file_headers n.inode
  let file_length = length_of s.memory header
  let size' = if ltb file_length (add32 offset size) then sub32 file_length offset else size
  let source = add32 (offset_of s.memory header) offset
  if ltb file_length offset
      then ok (0, s)
      else if leb (source + size') (2 ^ 32) && leb (buffer + size') (2 ^ 32)
      then ok (size', record s { memory = memcpy buffer source size' s.memory })
      else undefined

abbrev pub is_root : Node → Bool
is_root root = true
is_root _ = false

-- "dev"
abbrev pub dev_name : List ℕ
dev_name = b'd' ∷ b'e' ∷ b'v' ∷ []

-- The result points to `direntry`.
unfoldable pub read_directory : Node → (index : ℕ) → Initrd → Run (Option Dirent × Initrd)
read_directory p index s =
    if is_root p && (index == 0)
    then (let entry : Dirent = record { name = dev_name; ino = 0 } in
        ok (some entry, record s { direntry = entry }))
    else if leb s.nroot_nodes (sub32 index 1)
    then ok (none, s)
    else (do
      n ← load s.root_nodes (sub32 index 1)
      let entry : Dirent = record { name = n.name; ino = n.inode }
      ok (some entry, record s { direntry = entry }))

-- The loop of `initrd_finddir` at `i`, with `nroot_nodes - i` rounds left.
unfoldable pub find_from : (left i : ℕ) (name : List ℕ) → List InitrdNode → Run (Option Node)
find_from zero i name nodes = ok none
find_from (suc left) i name nodes = do
  n ← load nodes i
  let rest = find_from left (i + 1) name nodes
  if same_text name n.name then ok (some (file i)) else rest

unfoldable pub find_directory : Node → (name : List ℕ) → Initrd → Run (Option Node × Initrd)
find_directory p name s =
    if is_root p && same_text name dev_name
    then ok (some dev, s)
    else (do found ← find_from s.nroot_nodes 0 name s.root_nodes; ok (found, s))

-- The functions behind the pointers. A pointer of one type never holds a function of another.
unfoldable pub driver : Driver Function Node Initrd
driver = record {
  node = node_at;
  read = λ f p offset size buffer s. elim f [
    | initrd_read ↦ read_file p offset size buffer s
    | _ ↦ undefined
  ];
  write = λ f p offset size buffer s. undefined;
  open_node = λ f p s. undefined;
  close_node = λ f p s. undefined;
  readdir = λ f p index s. elim f [ initrd_readdir ↦ read_directory p index s | _ ↦ undefined ];
  finddir = λ f p name s. elim f [ initrd_finddir ↦ find_directory p name s | _ ↦ undefined ];
}

-- The nodes for `initrd` and `dev`.
unfoldable pub directory_node : (name : List ℕ) → InitrdNode
directory_node name = record {
  name = name;
  mask = 0;
  uid = 0;
  gid = 0;
  flags = fs_directory;
  inode = 0;
  length = 0;
  impl = 0;
  read_handler = none;
  write_handler = none;
  open_handler = none;
  close_handler = none;
  readdir_handler = some initrd_readdir;
  finddir_handler = some initrd_finddir;
  ptr = none;
}

-- The node of file `i`. `old` is what stood in its memory: `ptr` is not assigned.
unfoldable pub file_node : (name : List ℕ) (file_length i : ℕ) (old : InitrdNode) → InitrdNode
file_node name file_length i old = record {
  name = name;
  mask = 0;
  uid = 0;
  gid = 0;
  flags = fs_file;
  inode = i;
  length = file_length;
  impl = 0;
  read_handler = some initrd_read;
  write_handler = none;
  open_handler = none;
  close_handler = none;
  readdir_handler = none;
  finddir_handler = none;
  ptr = old.ptr;
}

-- The loop over the file headers from `i` on, with `nfiles - i` rounds left: the nodes, and the memory
-- with the offsets edited.
unfoldable pub load_files :
    (location file_headers left i : ℕ) (old : ℕ → InitrdNode)
    → Memory
    → Run (List InitrdNode × Memory)
load_files location file_headers zero i old m = ok ([], m)
load_files location file_headers (suc left) i old m =
    let header = header_at file_headers i in
    let m' = write32 m (header + 68) (add32 (offset_of m header) location) in
    do
      name ← string_from 128 m' (name_of header)
      (nodes, m'') ← load_files location file_headers left (i + 1) old m'
      ok (file_node name (length_of m' header) i (old i) ∷ nodes, m'')

-- `initialise_initrd`, which returns the root. `kmalloc` takes the sizes of the two nodes and of the
-- array of nodes, 184 bytes each; the nodes are kept apart from the memory of the image.
module _ {A : Type 0} (kmalloc : (size : ℕ) → A → Run (ℕ × A)) where
  unfoldable pub initialise_initrd :
      (location : ℕ) (old : ℕ → InitrdNode) → Dirent → Memory → A → Run (Node × Initrd × A)
  initialise_initrd location old direntry m a =
      let nfiles = read32 m location in
      do
        (root_address, a₁) ← kmalloc 184 a
        (dev_address, a₂) ← kmalloc 184 a₁
        (nodes_address, a₃) ← kmalloc (u32 (184 * nfiles)) a₂
        (nodes, m') ← load_files location (location + 4) nfiles 0 old m
        ok (
          root,
          record {
            memory = m';
            file_headers = location + 4;
            initrd_root = directory_node (b'i' ∷ b'n' ∷ b'i' ∷ b't' ∷ b'r' ∷ b'd' ∷ []);
            initrd_dev = directory_node dev_name;
            root_nodes = nodes;
            nroot_nodes = nfiles;
            direntry = direntry;
          },
          a₃,
        )
