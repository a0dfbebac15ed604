-- ===== src/FileSystem/Finding.antt =====
-- The directory of the ramdisk through `finddir_fs` and `readdir_fs`.
use native.Mathlib.Decide.{ℕ_discrete}
use loris.Base.{
  ℕ, zero, suc, ◌+◌, ◌-◌, ◌^◌, ◌≤◌, ◌<◌, ◌≡◌, refl, sym, ap, ◌∙◌, ◌≢◌, ◌⊎◌, inl, inr, arith, true,
  false, ◌&&◌, Option, some, none, List, [], ◌∷◌, length, ok, load, sub32, leb, ◌==◌, Bool-cases,
}
use loris.FileSystem.{refuses, finddir_fs, readdir_fs}
use loris.FileSystem.Text.{same_text, same_text_iff}
use loris.FileSystem.Initrd.{
  Node, root, file, dev, Initrd, InitrdNode, initrd_readdir, initrd_finddir, node_at, is_root,
  dev_name, find_from, find_directory, read_directory, directory_node, driver,
}

-- The name of node `i`, no bytes where there is none.
abbrev pub name_at : List InitrdNode → ℕ → List ℕ
name_at [] i = []
name_at (n ∷ nodes) zero = n.name
name_at (n ∷ nodes) (suc i) = name_at nodes i

pub load_named :
    (nodes : List InitrdNode) (i : ℕ)
    → i < length nodes
    → (n : InitrdNode) × (load nodes i ≡ ok n) × (n.name ≡ name_at nodes i)
load_named [] i h = elim h [ ]
load_named (n ∷ nodes) zero h = (n, refl, refl)
load_named (n ∷ nodes) (suc i) h = load_named nodes i (omega arith)

-- What the search finds: the first node with the name, if there is one.
pub data Found (name : List ℕ) (nodes : List InitrdNode) (lo hi : ℕ) : Option Node → Type 0 where
  missing : ((j : ℕ) → lo ≤ j → j < hi → name ≢ name_at nodes j) → Found name nodes lo hi none
  first :
      (i : ℕ)
      → lo ≤ i
      → i < hi
      → name ≡ name_at nodes i
      → ((j : ℕ) → lo ≤ j → j < i → name ≢ name_at nodes j)
      → Found name nodes lo hi (some (file i))

Found-step :
    (name : List ℕ) (nodes : List InitrdNode) (i hi : ℕ) {r : Option Node}
    → name ≢ name_at nodes i
    → Found name nodes (i + 1) hi r
    → Found name nodes i hi r
Found-step name nodes i hi other (missing all) = missing (λ j p q. elim (ℕ_discrete j i) [
  | yes e ↦ λ h. other (h ∙ ap (name_at nodes) e)
  | no ne ↦ all j (omega arith) q
])
Found-step name nodes i hi other (first k lo up same all) = first k (omega arith) up same (λ j p q.
    elim (ℕ_discrete j i) [
      | yes e ↦ λ h. other (h ∙ ap (name_at nodes) e)
      | no ne ↦ all j (omega arith) q
    ])

find_from-Found :
    (left i hi : ℕ) (name : List ℕ) (nodes : List InitrdNode)
    → i + left ≡ hi
    → hi ≤ length nodes
    → (r : Option Node) × (find_from left i name nodes ≡ ok r) × Found name nodes i hi r
unfolding find_from
find_from-Found zero i hi name nodes e room = (none, refl, missing (λ j p q. absurd (omega arith)))
find_from-Found (suc left) i hi name nodes e room =
    let (n, there, named) = load_named nodes i (omega arith) in
    elim (Bool-cases (same_text name n.name)) [
      | inl same ↦ (
        some (file i),
        rw (there, same),
        first i (omega arith) (omega arith) ((same_text_iff name n.name).0 same ∙ named)
            (λ j p q. absurd (omega arith)),
      )
      | inr other ↦
          let (r, run, found) = find_from-Found left (i + 1) hi name nodes (omega arith) room in
          let ne : name ≢ n.name = λ h. cc ((same_text_iff name n.name).1 h) in
          (r, rw (there, other, run), Found-step name nodes i hi (λ h. ne (h ∙ sym named)) found)
    ]

-- A ramdisk whose root is the node of a directory, with all its files in the array.
pub record IsMounted (s : Initrd) : Type 0 where
  pub text : List ℕ
  pub root_is : s.initrd_root ≡ directory_node text
  pub count : length s.root_nodes ≡ s.nroot_nodes
  pub small : s.nroot_nodes < 2 ^ 31

module _ (s : Initrd) (mounted : IsMounted s) where
  root_accepts : refuses s.initrd_root ≡ false
  unfolding refuses directory_node
  root_accepts = rw mounted.root_is

  root_readdir : s.initrd_root.readdir_handler ≡ some initrd_readdir
  unfolding directory_node
  root_readdir = rw mounted.root_is

  root_finddir : s.initrd_root.finddir_handler ≡ some initrd_finddir
  unfolding directory_node
  root_finddir = rw mounted.root_is

  finddir_fs-find_directory :
      (name : List ℕ) → finddir_fs driver root name s ≡ find_directory root name s
  unfolding finddir_fs driver node_at
  finddir_fs-find_directory name = simp (root_accepts, root_finddir)

  readdir_fs-read_directory :
      (index : ℕ) → readdir_fs driver root index s ≡ read_directory root index s
  unfolding readdir_fs driver node_at
  readdir_fs-read_directory index = simp (root_accepts, root_readdir)

  -- `finddir_fs` on the root of a mounted ramdisk returns and changes nothing: for the name "dev" it
  -- gives that directory, for any other name the first file that has it, or null where none has it.
  pub finddir_fs-Found :
      (name : List ℕ)
      → ((name ≡ dev_name) × (finddir_fs driver root name s ≡ ok (some dev, s)))
        ⊎ ((name ≢ dev_name)
            × ((r : Option Node) × (finddir_fs driver root name s ≡ ok (r, s))
                × Found name s.root_nodes 0 s.nroot_nodes r))
  finddir_fs-Found name = elim (Bool-cases (same_text name dev_name)) [
    | inl is_dev ↦
        inl ((same_text_iff name dev_name).0 is_dev, finddir_fs-find_directory name ∙ to_dev is_dev)
    | inr other ↦
        let (r, run, found) =
          find_from-Found s.nroot_nodes 0 s.nroot_nodes name s.root_nodes (omega arith)
            (omega (arith, mounted.count)) in
        inr (
          λ h. cc ((same_text_iff name dev_name).1 h),
          (r, finddir_fs-find_directory name ∙ to_file other run, found),
        )
  ]
    where
      to_dev : same_text name dev_name ≡ true → find_directory root name s ≡ ok (some dev, s)
      to_dev is_dev = unfold find_directory in rw is_dev

      to_file :
          same_text name dev_name ≡ false
          → {r : Option Node} → find_from s.nroot_nodes 0 name s.root_nodes ≡ ok r
          → find_directory root name s ≡ ok (r, s)
      to_file other run = unfold find_directory in rw (other, run)

  -- `readdir_fs` on the root of a mounted ramdisk enumerates it: index 0 is "dev", index `i + 1` the
  -- name and the inode of file `i`, and an index behind the last file gives null.
  pub readdir_fs_lem :
      (index : ℕ)
      → index < 2 ^ 32
      → ((index ≡ 0)
          × (readdir_fs driver root index s
              ≡ ok (
                some (record { name = dev_name; ino = 0 }),
                record s { direntry = record { name = dev_name; ino = 0 } },
              )))
        ⊎ ((s.nroot_nodes < index) × (readdir_fs driver root index s ≡ ok (none, s)))
        ⊎ ((n : InitrdNode) × (0 < index)
            × (load s.root_nodes (index - 1) ≡ ok n)
            × (readdir_fs driver root index s
                ≡ ok (
                  some (record { name = n.name; ino = n.inode }),
                  record s { direntry = record { name = n.name; ino = n.inode } },
                )))
  readdir_fs_lem index word = elim (ℕ_discrete index 0) [
    | yes zero_index ↦
        let at : (is_root root && (index == 0)) ≡ true = ground arith in
        inl (zero_index, readdir_fs-read_directory index ∙ unfold read_directory in rw at)
    | no positive ↦
        let other : (index == 0) ≡ false = ground arith in
        let below : sub32 index 1 ≡ index - 1 = omega arith in
        elim (Bool-cases (leb s.nroot_nodes (index - 1))) [
          | inl behind ↦ inr (
              inl (
                ground arith,
                readdir_fs-read_directory index
                    ∙ unfold read_directory in rw (other, below, behind),
              ))
          | inr inside ↦
              let (n, there, named) =
                load_named s.root_nodes (index - 1) (ground (arith, mounted.count)) in
              inr (
                inr (
                  n,
                  omega arith,
                  there,
                  readdir_fs-read_directory index
                      ∙ unfold read_directory in rw (other, below, inside, there),
                ))
        ]
  ]
