-- ===== src/Heap/JoinLeft.antt =====
-- `Free` of a block with a hole in front of it, the step "unify left", without and with a hole behind.
use mathlib.Core.Path.{subst}
use loris.Base.{
  ℕ, ◌+◌, ◌-◌, ◌≤◌, ◌<◌, ◌^◌, ◌≡◌, refl, sym, ◌∙◌, ◌≢◌, ◌⊎◌, arith, false, Memory, write32, add32,
  sub32, ◌==◌, write32_outside, read32_same, read32-write32_self, ok,
}
use loris.OrderedList.{OrderedList, remove}
use loris.Heap.Layout.{
  magic_of, is_hole_of, size_of, footer_header_of, set_is_hole, set_size, set_footer_header,
}
use loris.Heap.Index.{position_from}
use loris.Heap.Resize.{Pager, World}
use loris.Heap.Free.{Freeing, unify_left, unify_right, free_rest, free}
use loris.Heap.Blocks.{IsHeader, IsFooter, size_of_same}
use loris.Heap.Chunks.{IsChunk}
use loris.Heap.Merge.{RightBusy, marked, marked_outside}

RightBusy-same :
    (m m' : Memory) (next : ℕ)
    → ((x : ℕ) → next ≤ x → x < next + 12 → m' x ≡ m x)
    → RightBusy m next
    → RightBusy m' next
unfolding magic_of is_hole_of
RightBusy-same m m' next same busy =
    let magic = read32_same m m' next (λ x p q. same x p (omega arith)) in
    ground (arith, magic, same (next + 4))

-- `free_rest` where the heap does not end behind the hole, which is in the index already.
pub free_rest_kept :
    (pager : Pager) (f f' : Freeing) (w : World pager) (index : OrderedList ℕ)
    → unify_right f w.heap.index ≡ ok (f', index)
    → (add32 f'.footer 8 == w.heap.end_address) ≡ false
    → f'.do_add ≡ false
    → free_rest pager f w
      ≡ ok (record w { heap = record w.heap { index = index }; memory = f'.memory })
unfolding free_rest
free_rest_kept pager f f' w index unified inside kept = rw (unified, inside, kept) refl

-- "Unify right" of any hole that ends at `next`, without and with a hole there.
pub unify_right_none :
    (f : Freeing) (next : ℕ) (index : OrderedList ℕ)
    → add32 f.footer 8 ≡ next
    → RightBusy f.memory next
    → unify_right f index ≡ ok (f, index)
unfolding unify_right
unify_right_none f next index e busy = rw e (ground arith)

pub unify_right_some :
    (f : Freeing) (next n k i : ℕ) (index index' : OrderedList ℕ)
    → add32 f.footer 8 ≡ next
    → size_of f.memory f.header ≡ n
    → IsHeader f.memory next 1 k
    → f.header + 12 ≤ next
    → n + k < 2 ^ 32
    → 8 ≤ next + k
    → next + k < 2 ^ 32
    → position_from index next index.size 0 ≡ ok i
    → remove i index ≡ ok index'
    → unify_right f index
      ≡ ok (record f { memory = set_size f.header (n + k) f.memory; footer = next + k - 8 }, index')
unfolding unify_right set_size
unify_right_some f next n k i index index' e size header below sum_fits above word found removed =
    let sum : add32 n k ≡ n + k = omega arith in
    let footer : sub32 (add32 next k) 8 ≡ next + k - 8 = omega arith in
    let after : size_of (write32 f.memory (f.header + 8) (n + k)) next ≡ k =
      size_of_same f.memory (write32 f.memory (f.header + 8) (n + k)) next
        (λ x p q. write32_outside f.memory (f.header + 8) (n + k) x (omega arith))
      ∙ header.size_is in
    rw (e, header.magic, header.is_hole, size, header.size_is, sum, after, found, removed, footer)
      refl

-- The memory after the block of `n` bytes was joined to the hole of `k` bytes at `pos` in front of it.
abbrev pub left_memory : Memory → (pos k n : ℕ) → Memory
left_memory m pos k n =
    set_size pos (k + n) (set_footer_header (pos + k + n - 8) pos (set_is_hole (pos + k) 1 m))

-- The addresses that the join leaves alone.
abbrev pub Untouched : (pos k n x : ℕ) → Type 0
Untouched pos k n x =
    (x ≢ pos + k + 4)
    × ((x < pos + 8) ⊎ (pos + 12 ≤ x))
    × ((x < pos + k + n - 4) ⊎ (pos + k + n ≤ x))

abbrev pub joined_left : Memory → (pos k n : ℕ) → Freeing
joined_left m pos k n = record {
  memory = left_memory m pos k n;
  header = pos;
  footer = pos + k + n - 8;
  do_add = false;
}

module _ (m : Memory) (pos k n : ℕ) (hole : IsChunk m pos 1 k) (block : IsChunk m (pos + k) 0 n)
    (large : 20 ≤ k) (large' : 20 ≤ n) (word : pos + k + n < 2 ^ 32) where
  pub left_memory_outside : (x : ℕ) → Untouched pos k n x → left_memory m pos k n x ≡ m x
  unfolding set_size set_footer_header
  left_memory_outside x out =
      let m₁ = set_is_hole (pos + k) 1 m in
      let m₂ = set_footer_header (pos + k + n - 8) pos m₁ in
      write32_outside m₂ (pos + 8) (k + n) x (omega (arith, out.1))
      ∙ write32_outside m₁ (pos + k + n - 8 + 4) pos x (omega (arith, out.2))
      ∙ marked_outside m (pos + k) x out.0

  pub left_memory-IsChunk : IsChunk (left_memory m pos k n) pos 1 (k + n)
  unfolding magic_of is_hole_of size_of footer_header_of set_size set_footer_header
  left_memory-IsChunk =
      let m₁ = set_is_hole (pos + k) 1 m in
      let m₂ = set_footer_header (pos + k + n - 8) pos m₁ in
      let m₃ = left_memory m pos k n in
      let same : pos + (k + n) - 8 ≡ pos + k + n - 8 = omega arith in
      record {
        header = record {
          magic =
              read32_same m m₃ pos
                (λ x p q. left_memory_outside x (omega arith, omega arith, omega arith))
              ∙ hole.header.magic;
          is_hole =
              left_memory_outside (pos + 4) (omega arith, omega arith, omega arith)
              ∙ hole.header.is_hole;
          size_is = read32-write32_self m₂ (pos + 8) (k + n) (omega arith);
        };
        footer =
            subst (λ (f : ℕ). IsFooter m₃ f pos) (sym same)
              (record {
                magic =
                    read32_same m m₃ (pos + k + n - 8)
                      (λ x p q. left_memory_outside x (omega arith, omega arith, omega arith))
                    ∙ block.footer.magic;
                header_is =
                    read32_same m₂ m₃ (pos + k + n - 8 + 4)
                      (λ x p q. write32_outside m₂ (pos + 8) (k + n) x (omega arith))
                    ∙ read32-write32_self m₁ (pos + k + n - 8 + 4) pos (omega arith);
              });
      }

  -- "Unify left" finds the hole.
  unify_left-joined : unify_left (marked m (pos + k) n) ≡ joined_left m pos k n
  unfolding unify_left magic_of is_hole_of size_of footer_header_of set_footer_header
  unify_left-joined =
      let m₁ = set_is_hole (pos + k) 1 m in
      let test_footer : sub32 (pos + k) 8 ≡ pos + k - 8 = omega arith in
      let footer_magic =
        read32_same m m₁ (pos + k - 8) (λ x p q. marked_outside m (pos + k) x (omega arith))
        ∙ hole.footer.magic in
      let footer_header =
        read32_same m m₁ (pos + k - 8 + 4) (λ x p q. marked_outside m (pos + k) x (omega arith))
        ∙ hole.footer.header_is in
      let flag = marked_outside m (pos + k) (pos + 4) (omega arith) ∙ hole.header.is_hole in
      let size =
        read32_same m (write32 m₁ (pos + k + n - 8 + 4) pos) (pos + 8) (λ x p q.
          write32_outside m₁ (pos + k + n - 8 + 4) pos x (omega arith)
          ∙ marked_outside m (pos + k) x (omega arith))
        ∙ hole.header.size_is in
      let cache_size =
        read32_same m m₁ (pos + k + 8) (λ x p q. marked_outside m (pos + k) x (omega arith))
        ∙ block.header.size_is in
      let sum : add32 k n ≡ k + n = omega arith in
      rw (test_footer, footer_magic, footer_header, flag, size, cache_size, sum) refl

  pub free-free_rest_left :
      (pager : Pager) (w : World pager)
      → w.memory ≡ m
      → free pager (pos + k + 12) w ≡ free_rest pager (joined_left m pos k n) w
  unfolding free
  free-free_rest_left pager w e =
      let back : sub32 (pos + k + 12) 12 ≡ pos + k = omega arith in
      let footer : sub32 (add32 (pos + k) n) 8 ≡ pos + k + n - 8 = omega arith in
      let nonnull : (pos + k + 12 == 0) ≡ false = ground arith in
      rw (nonnull, back, e, block.header.size_is, footer, unify_left-joined) refl

-- Freeing a block right behind a hole, where nothing behind it is a hole and the heap does not end
-- there, returns: the two are one hole of both sizes with its header and its footer, no memory changes
-- but three fields of headers and footers inside it, and the heap's members, the index among them,
-- are as before, so the hole stays at its place in the index though it has grown.
pub free_join_left :
    (pager : Pager) (w : World pager) (pos k n : ℕ)
    → IsChunk w.memory pos 1 k
    → IsChunk w.memory (pos + k) 0 n
    → 20 ≤ k
    → 20 ≤ n
    → pos + k + n < 2 ^ 32
    → RightBusy w.memory (pos + k + n)
    → pos + k + n ≢ w.heap.end_address
    → (w' : World pager) × (free pager (pos + k + 12) w ≡ ok w')
      × IsChunk w'.memory pos 1 (k + n)
      × ((x : ℕ) → Untouched pos k n x → w'.memory x ≡ w.memory x)
      × (w'.heap ≡ w.heap)
free_join_left pager w pos k n hole block large large' word right within =
    let m = w.memory in
    let f = joined_left m pos k n in
    (
      record w { memory = f.memory },
      free-free_rest_left m pos k n hole block large large' word pager w refl
          ∙ free_rest_kept pager f f w w.heap.index
              (unify_right_none f (pos + k + n) w.heap.index (omega arith)
                (still_busy m pos k n hole block large large' word right))
              (ground arith) refl,
      left_memory-IsChunk m pos k n hole block large large' word,
      left_memory_outside m pos k n hole block large large' word,
      refl,
    )
  where
    still_busy :
        (m : Memory) (pos k n : ℕ) (hole : IsChunk m pos 1 k) (block : IsChunk m (pos + k) 0 n)
        (large : 20 ≤ k) (large' : 20 ≤ n) (word : pos + k + n < 2 ^ 32)
        → RightBusy m (pos + k + n)
        → RightBusy (left_memory m pos k n) (pos + k + n)
    still_busy m pos k n hole block large large' word right =
        RightBusy-same m (left_memory m pos k n) (pos + k + n)
          (λ x p q.
            left_memory_outside m pos k n hole block large large' word x
              (omega arith, omega arith, omega arith))
          right
