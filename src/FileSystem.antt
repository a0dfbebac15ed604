-- ===== src/FileSystem.antt =====
-- The virtual file system, kernel/FIleSystem/FileSystem.cpp: each call goes to the function that the
-- node holds for it. The module Initrd has the functions of the initial ramdisk.
pub mod Initrd
pub mod Text
pub mod Reading
pub mod Finding
pub mod Mounting
pub mod Files
mod Tests
use loris.Base.{
  ℕ, ◌%◌, bit_and, not, ◌||◌, Bool, true, false, Option, none, some, List, Run, ok, ◌>>=◌, ◌==◌,
  if◌then◌else◌,
}

-- `struct dirent`, its name as the bytes before the zero.
pub record Dirent : Type 0 where
  pub name : List ℕ
  pub ino : ℕ

-- `struct fs_node`. `F` names the functions that the pointers in it stand for, `P` are pointers to
-- nodes; a null pointer is `none`.
pub record FsNode (F P : Type 0) : Type 0 where
  pub name : List ℕ
  pub mask : ℕ
  pub uid : ℕ
  pub gid : ℕ
  pub flags : ℕ
  pub inode : ℕ
  pub length : ℕ
  pub impl : ℕ
  pub read_handler : Option F
  pub write_handler : Option F
  pub open_handler : Option F
  pub close_handler : Option F
  pub readdir_handler : Option F
  pub finddir_handler : Option F
  pub ptr : Option P

abbrev pub fs_file : ℕ
fs_file = 1

abbrev pub fs_directory : ℕ
fs_directory = 2

-- What a file system brings along: the nodes behind the pointers, and the six types of functions.
pub record Driver (F P S : Type 0) : Type 0 where
  pub node : P → S → Run (FsNode F P)
  pub read : F → P → (offset size buffer : ℕ) → S → Run (ℕ × S)
  pub write : F → P → (offset size buffer : ℕ) → S → Run (ℕ × S)
  pub open_node : F → P → S → Run S
  pub close_node : F → P → S → Run S
  pub readdir : F → P → (index : ℕ) → S → Run (Option Dirent × S)
  pub finddir : F → P → (name : List ℕ) → S → Run (Option P × S)

-- The test of both directory calls: no directory, or no `readdir`.
unfoldable pub refuses : {F P : Type 0} → FsNode F P → Bool
refuses n =
    not (bit_and n.flags 7 == fs_directory)
    || elim (n.readdir_handler) [ some f ↦ false | none ↦ true ]

module _ {F P S : Type 0} (driver : Driver F P S) where
  unfoldable pub read_fs : P → (offset size buffer : ℕ) → S → Run (ℕ × S)
  read_fs p offset size buffer s = do
    n ← driver.node p s
    elim (n.read_handler) [ some f ↦ driver.read f p offset size buffer s | none ↦ ok (0, s) ]

  unfoldable pub write_fs : P → (offset size buffer : ℕ) → S → Run (ℕ × S)
  write_fs p offset size buffer s = do
    n ← driver.node p s
    elim (n.write_handler) [ some f ↦ driver.write f p offset size buffer s | none ↦ ok (0, s) ]

  -- The other parameters of `open_fs` and `close_fs` are not used.
  unfoldable pub open_fs : P → S → Run S
  open_fs p s = do
    n ← driver.node p s
    elim (n.open_handler) [ some f ↦ driver.open_node f p s | none ↦ ok s ]

  unfoldable pub close_fs : P → S → Run S
  close_fs p s = do
    n ← driver.node p s
    elim (n.close_handler) [ some f ↦ driver.close_node f p s | none ↦ ok s ]

  unfoldable pub readdir_fs : P → (index : ℕ) → S → Run (Option Dirent × S)
  readdir_fs p index s = do
    n ← driver.node p s
    if refuses n
        then ok (none, s)
        else elim (n.readdir_handler) [ some f ↦ driver.readdir f p index s | none ↦ ok (none, s) ]

  unfoldable pub finddir_fs : P → (name : List ℕ) → S → Run (Option P × S)
  finddir_fs p name s = do
    n ← driver.node p s
    if refuses n
        then ok (none, s)
        else elim (n.finddir_handler) [ some f ↦ driver.finddir f p name s | none ↦ ok (none, s) ]
