-- ===== src/Heap/Blocks.antt =====
-- Headers and footers in memory: what is read back after a write, and what a write leaves alone.
use loris.Base.{
  ℕ, ◌+◌, ◌^◌, ◌≤◌, ◌<◌, ◌≡◌, ◌∙◌, ◌⊎◌, arith, Memory, write, write32, write32_outside,
  read32-write32_self, read32_same, read32-write32_ne,
}
use loris.Heap.Layout.{
  heap_magic, magic_of, is_hole_of, size_of, footer_header_of, set_magic, set_is_hole, set_size,
  set_footer_header, put_header, put_footer,
}

pub record IsHeader (m : Memory) (h hole size : ℕ) : Type 0 where
  pub magic : magic_of m h ≡ heap_magic
  pub is_hole : is_hole_of m h ≡ hole
  pub size_is : size_of m h ≡ size

pub record IsFooter (m : Memory) (f header : ℕ) : Type 0 where
  pub magic : magic_of m f ≡ heap_magic
  pub header_is : footer_header_of m f ≡ header

-- The two memories agree on `a` to `a + n`.
abbrev pub SameBytes : Memory → Memory → ℕ → ℕ → Type 0
SameBytes m m' a n = (x : ℕ) → a ≤ x → x < a + n → m' x ≡ m x

pub size_of_same : (m m' : Memory) (h : ℕ) → SameBytes m m' h 12 → size_of m' h ≡ size_of m h
unfolding size_of
size_of_same m m' h same = read32_same m m' (h + 8) (λ x p q. same x (omega arith) (omega arith))

pub IsHeader-same :
    (m m' : Memory) (h hole size : ℕ)
    → SameBytes m m' h 12
    → IsHeader m h hole size
    → IsHeader m' h hole size
unfolding magic_of is_hole_of
IsHeader-same m m' h hole size same i = record {
  magic = read32_same m m' h (λ x p q. same x p (omega arith)) ∙ i.magic;
  is_hole = same (h + 4) (omega arith) (omega arith) ∙ i.is_hole;
  size_is = size_of_same m m' h same ∙ i.size_is;
}

pub IsFooter-same :
    (m m' : Memory) (f header : ℕ) → SameBytes m m' f 8 → IsFooter m f header → IsFooter m' f header
unfolding magic_of footer_header_of
IsFooter-same m m' f header same i = record {
  magic = read32_same m m' f (λ x p q. same x p (omega arith)) ∙ i.magic;
  header_is = read32_same m m' (f + 4) (λ x p q. same x (omega arith) (omega arith)) ∙ i.header_is;
}

pub put_header_outside :
    (m : Memory) (h hole size x : ℕ) → (x < h) ⊎ (h + 12 ≤ x) → put_header h hole size m x ≡ m x
unfolding set_magic set_is_hole set_size
put_header_outside m h hole size x out =
    write32_outside (write (write32 m h heap_magic) (h + 4) hole) (h + 8) size x (omega arith)
    ∙ (ground (arith, write32_outside m h heap_magic x))

pub put_header-IsHeader :
    (m : Memory) (h hole size : ℕ) → size < 2 ^ 32 → IsHeader (put_header h hole size m) h hole size
unfolding set_magic set_is_hole set_size magic_of is_hole_of size_of
put_header-IsHeader m h hole size fits =
    let m₁ = write32 m h heap_magic in
    let m₂ = write m₁ (h + 4) hole in
    record {
      magic =
          read32-write32_ne m₂ (h + 8) h size (omega arith)
          ∙ read32_same m₁ m₂ h (λ x p q. ground arith)
          ∙ read32-write32_self m h heap_magic (omega arith);
      is_hole = write32_outside m₂ (h + 8) size (h + 4) (omega arith) ∙ ground arith;
      size_is = read32-write32_self m₂ (h + 8) size fits;
    }

pub put_footer_outside :
    (m : Memory) (f header x : ℕ) → (x < f) ⊎ (f + 8 ≤ x) → put_footer f header m x ≡ m x
unfolding set_magic set_footer_header
put_footer_outside m f header x out =
    write32_outside (write32 m f heap_magic) (f + 4) header x (omega arith)
    ∙ write32_outside m f heap_magic x (omega arith)

pub put_footer-IsFooter :
    (m : Memory) (f header : ℕ) → header < 2 ^ 32 → IsFooter (put_footer f header m) f header
unfolding set_magic set_footer_header magic_of footer_header_of
put_footer-IsFooter m f header fits =
    let m₁ = write32 m f heap_magic in
    record {
      magic =
          read32-write32_ne m₁ (f + 4) f header (omega arith)
          ∙ read32-write32_self m f heap_magic (omega arith);
      header_is = read32-write32_self m₁ (f + 4) header fits;
    }
