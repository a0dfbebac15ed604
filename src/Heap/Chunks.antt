-- ===== src/Heap/Chunks.antt =====
-- Chunks of the heap: a block or a hole with its header and its footer.
use loris.Base.{ℕ, ◌+◌, ◌-◌, ◌≤◌, ◌<◌, ◌^◌, ◌≡◌, ◌∙◌, ◌⊎◌, arith, Memory}
use loris.Heap.Layout.{put_header, put_footer}
use loris.Heap.Blocks.{
  IsHeader, IsFooter, SameBytes, IsHeader-same, IsFooter-same, put_header_outside,
  put_header-IsHeader, put_footer_outside, put_footer-IsFooter,
}

-- `m` has a block or a hole of `n` bytes at `pos`, with its header and its footer.
pub record IsChunk (m : Memory) (pos hole n : ℕ) : Type 0 where
  pub header : IsHeader m pos hole n
  pub footer : IsFooter m (pos + n - 8) pos

-- The memory after the chunk was written.
abbrev pub chunk_memory : (pos hole n : ℕ) → Memory → Memory
chunk_memory pos hole n m = put_footer (pos + n - 8) pos (put_header pos hole n m)

module _ (m : Memory) (pos hole n : ℕ) (large : 20 ≤ n) (word : pos + n < 2 ^ 32) where
  pub chunk_memory-IsChunk : IsChunk (chunk_memory pos hole n m) pos hole n
  chunk_memory-IsChunk = record {
    header =
        IsHeader-same (put_header pos hole n m) (chunk_memory pos hole n m) pos hole n
          (λ x p q. put_footer_outside (put_header pos hole n m) (pos + n - 8) pos x (omega arith))
          (put_header-IsHeader m pos hole n (omega arith));
    footer = put_footer-IsFooter (put_header pos hole n m) (pos + n - 8) pos (omega arith);
  }

  pub chunk_outside : (x : ℕ) → (x < pos) ⊎ (pos + n ≤ x) → chunk_memory pos hole n m x ≡ m x
  chunk_outside x out =
      put_footer_outside (put_header pos hole n m) (pos + n - 8) pos x (omega arith)
      ∙ put_header_outside m pos hole n x (omega arith)

pub IsChunk-same :
    (m m' : Memory) (pos hole n : ℕ)
    → 20 ≤ n
    → SameBytes m m' pos n
    → IsChunk m pos hole n
    → IsChunk m' pos hole n
IsChunk-same m m' pos hole n large same c = record {
  header = IsHeader-same m m' pos hole n (λ x p q. same x p (omega arith)) c.header;
  footer =
      IsFooter-same m m' (pos + n - 8) pos (λ x p q. same x (omega arith) (omega arith)) c.footer;
}
