-- ===== src/FileSystem/Files.antt =====
-- `initialise_initrd`, and the files of the ramdisk from their names to their bytes.
use native.Mathlib.Decide.{dec_lt}
use mathlib.Core.Path.{subst}
use loris.Base.{
  ℕ, ◌+◌, ◌-◌, ◌*◌, ◌^◌, ◌≤◌, ◌<◌, ◌≡◌, refl, sym, ap, ◌∙◌, ◌≢◌, ◌⊎◌, inl, inr, arith, min, Option,
  some, List, [], ◌∷◌, Memory, read32, Run, ok, load, add32, u32,
}
use loris.Strings.Copy.{IsCopied}
use loris.FileSystem.{Dirent, read_fs, finddir_fs}
use loris.FileSystem.Text.{string_from}
use loris.FileSystem.Initrd.{
  Node, root, file, Initrd, InitrdNode, initrd_read, header_at, name_of, offset_of, length_of,
  node_at, file_node, directory_node, dev_name, initialise_initrd, driver,
}
use loris.FileSystem.Reading.{read_fs-IsCopied}
use loris.FileSystem.Finding.{
  name_at, load_named, Found, missing, first, IsMounted, finddir_fs-Found,
}
use loris.FileSystem.Mounting.{load_files-Loaded}

-- At `location` stands an image of `n` files with these names, each of which ends inside its field.
pub record IsImage (m : Memory) (location n : ℕ) (name : ℕ → List ℕ) : Type 0 where
  pub nfiles : read32 m location ≡ n
  pub small : n < 2 ^ 31
  pub names :
      (i : ℕ) → i < n → string_from 64 m (name_of (header_at (location + 4) i)) ≡ ok (name i)

-- A ramdisk with the files of the image, their offsets counted from the start of memory.
pub record HasFiles (m : Memory) (location n : ℕ) (name : ℕ → List ℕ) (s : Initrd) : Type 0 where
  pub mounted : IsMounted s
  pub nodes : s.nroot_nodes ≡ n
  pub headers : s.file_headers ≡ location + 4
  pub each :
      (j : ℕ)
      → j < n
      → (f : InitrdNode) × (load s.root_nodes j ≡ ok f)
        × (f.name ≡ name j)
        × (f.inode ≡ j)
        × (f.length ≡ length_of m (header_at (location + 4) j))
        × (f.read_handler ≡ some initrd_read)
  pub offsets :
      (j : ℕ)
      → j < n
      → offset_of s.memory (header_at (location + 4) j)
        ≡ add32 (offset_of m (header_at (location + 4) j)) location
  pub lengths :
      (j : ℕ)
      → j < n
      → length_of s.memory (header_at (location + 4) j) ≡ length_of m (header_at (location + 4) j)
  pub kept : (x : ℕ) → (x < location + 4) ⊎ (location + 4 + 76 * n ≤ x) → s.memory x ≡ m x

-- Where the three calls of `kmalloc` return, `initialise_initrd` of an image returns the root of a ramdisk with a node
-- for each file of the image, by name, length and number; it adds the location to the offset in
-- each header, and changes no memory outside the headers.
pub initialise_initrd-HasFiles :
    {A : Type 0} (kmalloc : (size : ℕ) → A → Run (ℕ × A)) (location n : ℕ) (name : ℕ → List ℕ)
    (old : ℕ → InitrdNode) (direntry : Dirent) (m : Memory) (a : A) (r₁ r₂ r₃ : ℕ × A)
    → kmalloc 184 a ≡ ok r₁
    → kmalloc 184 r₁.1 ≡ ok r₂
    → kmalloc (u32 (184 * n)) r₂.1 ≡ ok r₃
    → IsImage m location n name
    → (s : Initrd) × (initialise_initrd kmalloc location old direntry m a ≡ ok (root, s, r₃.1))
      × HasFiles m location n name s
unfolding initialise_initrd
initialise_initrd-HasFiles kmalloc location n name old direntry m a r₁ r₂ r₃ e₁ e₂ e₃ image =
    let e₃' : kmalloc (u32 (184 * read32 m location)) r₂.1 ≡ ok r₃ =
      ap (λ (k : ℕ). kmalloc (u32 (184 * k)) r₂.1) image.nfiles ∙ e₃ in
    let (nodes, m', run, l) =
      load_files-Loaded location (location + 4) old name (read32 m location) 0 n m
        (omega (arith, image.nfiles)) (λ j p q. image.names j q) in
    (
      record {
        memory = m';
        file_headers = location + 4;
        initrd_root = directory_node (b'i' ∷ b'n' ∷ b'i' ∷ b't' ∷ b'r' ∷ b'd' ∷ []);
        initrd_dev = directory_node dev_name;
        root_nodes = nodes;
        nroot_nodes = read32 m location;
        direntry = direntry;
      },
      rw (e₁, e₂, e₃', run),
      record {
        mounted = record {
          text = b'i' ∷ b'n' ∷ b'i' ∷ b't' ∷ b'r' ∷ b'd' ∷ [];
          root_is = refl;
          count = omega (arith, l.count, image.nfiles);
          small = omega (arith, image.nfiles, image.small);
        };
        nodes = image.nfiles;
        headers = refl;
        each = λ j p.
            unfold file_node in
            (
              file_node (name j) (length_of m (header_at (location + 4) j)) j (old j),
              let start : j - 0 ≡ j = omega arith in
                  subst
                    (λ (k : ℕ).
                      load nodes k
                      ≡ ok
                          (file_node (name j) (length_of m (header_at (location + 4) j)) j (old j)))
                    start (l.node j (omega arith) p),
              refl,
              refl,
              refl,
              refl,
            );
        offsets = λ j p. l.offset j (omega arith) p;
        lengths = λ j p. l.size j (omega arith) p;
        kept = λ x out. l.kept x (omega arith);
      },
    )

module _ (m : Memory) (location n : ℕ) (name : ℕ → List ℕ) (s : Initrd)
    (files : HasFiles m location n name s) where
  name_there : (j : ℕ) → j < n → name_at s.root_nodes j ≡ name j
  name_there j p =
      let (f, there, named, inode, size, handler) = files.each j p in
      let (f', there', named') =
        load_named s.root_nodes j (omega (arith, files.mounted.count, files.nodes)) in
      let same : f ≡ f' = cc in sym named' ∙ ap (λ (k : InitrdNode). k.name) (sym same) ∙ named

  Found-unique :
      (j : ℕ) {r : Option Node}
      → j < n
      → ((k : ℕ) → k < j → name k ≢ name j)
      → Found (name j) s.root_nodes 0 s.nroot_nodes r
      → r ≡ some (file j)
  Found-unique j p before (missing all) =
      absurd (all j (omega arith) (omega (arith, files.nodes)) (sym (name_there j p)))
  Found-unique j p before (first i lo up same all) = elim (dec_lt i j) [
    | yes lt ↦ absurd (before i lt (sym (same ∙ name_there i (omega arith))))
    | no ge ↦ elim (dec_lt j i) [
      | yes lt ↦ absurd (all j (omega arith) lt (sym (name_there j p)))
      | no le ↦ let e : i ≡ j = omega arith in ap (λ (k : ℕ). some (file k)) e
    ]
  ]

  -- A file of the image, the first with its name and not called "dev", is found by that name on the
  -- root, and reading the node that was found copies the bytes of the file, from its offset in the
  -- image on, as far as the file has bytes behind the offset asked for; no sum exceeds a uint32_t, the
  -- bytes and the buffer end inside the address space, and the buffer does not begin inside the bytes that are read.
  pub find_and_read :
      (j offset size buffer : ℕ)
      → j < n
      → name j ≢ dev_name
      → ((k : ℕ) → k < j → name k ≢ name j)
      → let start = location + offset_of m (header_at (location + 4) j) + offset in
        let count = min size (length_of m (header_at (location + 4) j) - offset) in
        offset + size < 2 ^ 32
        → start < 2 ^ 32
        → start + count ≤ 2 ^ 32
        → buffer + count ≤ 2 ^ 32
        → (buffer ≤ start) ⊎ (start + count ≤ buffer)
        → (p : Node) × (m' : Memory) × (finddir_fs driver root (name j) s ≡ ok (some p, s))
          × (read_fs driver p offset size buffer s ≡ ok (count, record s { memory = m' }))
          × IsCopied buffer start 0 count s.memory m'
  find_and_read j offset size buffer p not_dev before small below source_fits buffer_fits apart =
      let (f, there, named, inode, length_is, handler) = files.each j p in
      let header : header_at s.file_headers f.inode ≡ header_at (location + 4) j =
        omega (arith, files.headers, inode) in
      let from : offset_of s.memory (header_at s.file_headers f.inode) + offset
          ≡ location + offset_of m (header_at (location + 4) j) + offset =
        rw header (omega (arith, files.offsets j p)) in
      let bytes : min size (length_of s.memory (header_at s.file_headers f.inode) - offset)
          ≡ min size (length_of m (header_at (location + 4) j) - offset) =
        rw header (ap (λ (k : ℕ). min size (k - offset)) (files.lengths j p)) in
      let (m', run, copied) =
        read_fs-IsCopied (file j) f offset size buffer s (unfold node_at in there) handler small
          (omega (arith, from)) (omega (arith, from, bytes)) (omega (arith, bytes))
          (omega (arith, from, bytes)) in
      (
        file j,
        m',
        elim (finddir_fs-Found s files.mounted (name j)) [
          | inl (is_dev, found) ↦ absurd (not_dev is_dev)
          | inr (ne, (r, found, which)) ↦
              found ∙ ap (λ (o : Option Node). ok (o, s)) (Found-unique j p before which)
        ],
        run ∙ ap (λ (k : ℕ). ok (k, record s { memory = m' })) bytes,
        subst
            (λ (k : ℕ).
              IsCopied buffer k 0 (min size (length_of m (header_at (location + 4) j) - offset))
                s.memory m')
            from
            (subst
              (λ (k : ℕ).
                IsCopied buffer (offset_of s.memory (header_at s.file_headers f.inode) + offset) 0 k
                  s.memory m')
              bytes copied),
      )
