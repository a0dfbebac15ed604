-- ===== src/FileSystem/Reading.antt =====
-- Reading a file of the ramdisk through `read_fs`.
use mathlib.Core.Path.{subst}
use loris.Base.{
  ℕ, ◌+◌, ◌-◌, ◌^◌, ◌≤◌, ◌<◌, ◌≡◌, refl, sym, ap, ◌∙◌, ◌⊎◌, inl, inr, arith, min, true, false, some,
  Memory, ok, add32, sub32, ltb, if◌then◌else◌, Bool-cases, leb, undefined,
}
use loris.Strings.{memcpy}
use loris.Strings.Copy.{IsCopied, memmove-IsCopied, memcpy-eq-memmove}
use loris.FileSystem.{read_fs}
use loris.FileSystem.Initrd.{
  Node, Initrd, InitrdNode, initrd_read, header_at, offset_of, length_of, node_at, read_file,
  driver,
}

memcpy-IsCopied :
    (dst src n : ℕ) (m : Memory)
    → (dst ≤ src) ⊎ (src + n ≤ dst)
    → IsCopied dst src 0 n m (memcpy dst src n m)
memcpy-IsCopied dst src n m apart =
    subst (λ (m' : Memory). IsCopied dst src 0 n m m') (sym (memcpy-eq-memmove dst src n m apart))
      (memmove-IsCopied dst src n m)

read_fs-read_file :
    (p : Node) (n : InitrdNode) (offset size buffer : ℕ) (s : Initrd)
    → node_at p s ≡ ok n
    → n.read_handler ≡ some initrd_read
    → read_fs driver p offset size buffer s ≡ read_file p offset size buffer s
unfolding read_fs driver
read_fs-read_file p n offset size buffer s at handler = rw (at, handler)

module _ (p : Node) (n : InitrdNode) (offset size buffer : ℕ) (s : Initrd) (at : node_at p s ≡ ok n)
    (handler : n.read_handler ≡ some initrd_read) where
  abbrev header : ℕ
  header = header_at s.file_headers n.inode

  abbrev file_length : ℕ
  file_length = length_of s.memory header

  abbrev start : ℕ
  start = offset_of s.memory header + offset

  -- The bytes that are there to be read.
  abbrev pub count : ℕ
  count = min size (file_length - offset)

  -- `read_fs` on a file of the ramdisk, where no sum exceeds a uint32_t, both the bytes and the
  -- buffer end inside the address space and the buffer does not begin
  -- inside the bytes that are read, returns the number of bytes from the offset to the end of the file
  -- or the size, whichever is less, 0 behind the end; it copies these bytes to the buffer, and writes
  -- nowhere else.
  pub read_fs-IsCopied :
      offset + size < 2 ^ 32
      → start < 2 ^ 32
      → start + count ≤ 2 ^ 32
      → buffer + count ≤ 2 ^ 32
      → (buffer ≤ start) ⊎ (start + count ≤ buffer)
      → (m' : Memory) × (read_fs driver p offset size buffer s
          ≡ ok (count, record s { memory = m' }))
        × IsCopied buffer start 0 count s.memory m'
  read_fs-IsCopied small below source_fits buffer_fits apart =
      elim (Bool-cases (ltb file_length offset)) [
        | inl behind ↦
            let nothing : count ≡ 0 = ground arith in
            (
              s.memory,
              read_fs-read_file p n offset size buffer s at handler
                  ∙ past behind
                  ∙ ap (λ (k : ℕ). ok (k, s)) (sym nothing),
              subst (λ (k : ℕ). IsCopied buffer start 0 k s.memory s.memory) (sym nothing)
                  (record { inside = λ j q h. elim h [ ]; outside = λ x h. refl }),
            )
        | inr inside ↦ (
          memcpy buffer start count s.memory,
          read_fs-read_file p n offset size buffer s at handler
              ∙ within inside small below source_fits buffer_fits,
          memcpy-IsCopied buffer start count s.memory apart,
        )
      ]
    where
      past : ltb file_length offset ≡ true → read_file p offset size buffer s ≡ ok (0, s)
      past behind = unfold read_file in rw (at, behind)

      within :
          ltb file_length offset ≡ false
          → offset + size < 2 ^ 32
          → start < 2 ^ 32
          → start + count ≤ 2 ^ 32
          → buffer + count ≤ 2 ^ 32
          → read_file p offset size buffer s
            ≡ ok (count, record s { memory = memcpy buffer start count s.memory })
      within inside small below source_fits buffer_fits =
          let address : add32 (offset_of s.memory header) offset ≡ start = omega arith in
          let bytes : (if ltb file_length (add32 offset size)
                then sub32 file_length offset
                else size)
              ≡ count =
            ground arith in
          let source_test : leb (start + count) (2 ^ 32) ≡ true = ground (arith, source_fits) in
          let buffer_test : leb (buffer + count) (2 ^ 32) ≡ true = ground (arith, buffer_fits) in
          unfold read_file in rw (at, inside, address, bytes, source_test, buffer_test) refl

  -- Where the sum of offset and size exceeds a uint32_t, and what is left of it does not exceed the length
  -- of the file, which does not begin at address 0, the size is not cut to the file, though the file has
  -- fewer bytes behind the offset: instead of returning those, `read_fs` is undefined, a copy that leaves
  -- the address space.
  pub read_fs_wraps :
      offset ≤ file_length
      → file_length < 2 ^ 32
      → size < 2 ^ 32
      → 2 ^ 32 ≤ offset + size
      → offset + size ≤ file_length + 2 ^ 32
      → 0 < offset_of s.memory header
      → start < 2 ^ 32
      → (file_length - offset < size) × (read_fs driver p offset size buffer s ≡ undefined)
  read_fs_wraps inside word small over wraps placed below =
      let behind : ltb file_length offset ≡ false = ground arith in
      let uncut : ltb file_length (add32 offset size) ≡ false = ground arith in
      let address : add32 (offset_of s.memory header) offset ≡ start = omega arith in
      let leaves : leb (start + size) (2 ^ 32) ≡ false = ground arith in
      (
        omega arith,
        read_fs-read_file p n offset size buffer s at handler
            ∙ unfold read_file in rw (at, behind, uncut, address, leaves) refl,
      )
