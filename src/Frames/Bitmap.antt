-- ===== src/Frames/Bitmap.antt =====
-- What the bitmap stands for: a set of used frames. `set_frame`, `clear_frame` and `test_frame`
-- against that set.
use native.Mathlib.Decide.{ℕ_discrete}
use native.Mathlib.Nat.{one-le-pow, pow-le-pow_right}
use loris.Base.{
  ℕ, ◌*◌, ◌/◌, ◌%◌, ◌^◌, ◌≤◌, ◌<◌, ◌≡◌, refl, sym, some, ◌↔◌, arith, ◌==◌, bit_and, bit_or,
  if◌then◌else◌, get_elem?, get_or, set, length, length-set, get_elem?-eq-get_or, get_or-set_self,
  get_or-set_ne, ok, not32, ◌<<<◌, bit, bit-lt, bit-bit_or, bit-bit_and, bit-pow_self, bit-pow_ne,
  bit-complement, bit_or-lt, bit_and-le, bit_and-pow,
}
use loris.Frames.{Frames, set_frame, clear_frame, test_frame}

-- Bit of frame `f`: 1 if the frame is in use.
abbrev pub used : Frames → ℕ → ℕ
used s f = bit (f % 32) (get_or s.words (f / 32) 0)

-- Frame `f` is one of the `nframes`, in whole words, and its bit is in the array.
abbrev pub InRange : Frames → ℕ → Type 0
InRange s f = (f / 32 < s.nframes / 32) × (f / 32 < length s.words)

-- The array holds uint32_t, and the address of a frame in it is a uint32_t. It may be shorter than
-- `nframes` asks for.
pub record IsBitmap (s : Frames) : Type 0 where
  pub in_width : (i : ℕ) → i < length s.words → get_or s.words i 0 < 2 ^ 32
  pub addressable : length s.words ≤ 2 ^ 15

one_shifted : (k : ℕ) → 1 <<< k ≡ 2 ^ k
one_shifted k = omega arith

pub one_shifted-lt : (k : ℕ) → k < 32 → 1 <<< k < 2 ^ 32
one_shifted-lt k h =
    omega
      (arith, one_shifted k, pow-le-pow_right {n = 2} (omega arith) {i = k} {j = 31} (omega arith))

bit-or_mask : (i k w : ℕ) → bit i (bit_or w (1 <<< k)) ≡ (if i == k then 1 else bit i w)
bit-or_mask i k w =
    rw (one_shifted k, bit-bit_or) (ground (arith, bit-lt i w, bit-pow_self i, bit-pow_ne i k))

bit-and_not_mask :
    (i k w : ℕ)
    → i < 32
    → k < 32
    → bit i (bit_and w (not32 (1 <<< k))) ≡ (if i == k then 0 else bit i w)
bit-and_not_mask i k w hi hk =
    rw (bit-bit_and, bit-complement 32 i (1 <<< k) (one_shifted-lt k hk) hi, one_shifted k)
      (ground (arith, bit-lt i w, bit-pow_self i, bit-pow_ne i k))

-- `word & (1 << k)` is 0 exactly when bit `k` is.
pub mask_test : (k w : ℕ) → (bit_and w (1 <<< k) ≡ 0) ↔ (bit k w ≡ 0)
mask_test k w = rw (one_shifted k, bit_and-pow) (forth, λ e. rw e (omega arith))
  where
    forth : bit k w * 2 ^ k ≡ 0 → bit k w ≡ 0
    forth e = grind (arith, one-le-pow k 2, bit-lt k w)

-- `s'` is `s` with bit `f` set to `b`.
pub record Update (s s' : Frames) (f b : ℕ) : Type 0 where
  pub same_count : s'.nframes ≡ s.nframes
  pub same_length : length s'.words ≡ length s.words
  pub bits : (g : ℕ) → used s' g ≡ (if g == f then b else used s g)
  pub bitmap : IsBitmap s'

module _ (s : Frames) (f v b : ℕ) (bitmap : IsBitmap s) (inside : f / 32 < length s.words)
    (fits : v < 2 ^ 32)
    (bits : (i : ℕ)
      → i < 32
      → bit i v ≡ (if i == f % 32 then b else bit i (get_or s.words (f / 32) 0))) where
  pub write-Update : Update s (record s { words = set s.words (f / 32) v }) f b
  write-Update = record {
    same_count = refl;
    same_length = length-set s.words (f / 32) v;
    bits = new_bits;
    bitmap = record {
      in_width = λ i h. ground (
        arith,
        same,
        bitmap.in_width i,
        get_or-set_self s.words (f / 32) v 0,
        get_or-set_ne s.words (f / 32) i v 0,
      );
      addressable = omega (arith, same, bitmap.addressable);
    };
  }
    where
      same : length (set s.words (f / 32) v) ≡ length s.words
      same = length-set s.words (f / 32) v

      new_bits :
          (g : ℕ)
          → bit (g % 32) (get_or (set s.words (f / 32) v) (g / 32) 0)
            ≡ (if g == f then b else bit (g % 32) (get_or s.words (g / 32) 0))
      new_bits g = elim (ℕ_discrete (g / 32) (f / 32)) [
        | yes e ↦
            rw (e, get_or-set_self s.words (f / 32) v 0 inside)
              (ground (arith, bits (g % 32) (omega arith)))
        | no ne ↦ rw (get_or-set_ne s.words (f / 32) (g / 32) v 0 (λ e. ne (sym e))) (ground arith)
      ]

-- The frame of an address `a` inside the array.
module _ (s : Frames) (a : ℕ) (bitmap : IsBitmap s)
    (inside : a / 0x1000 / 32 < length s.words) where
  word_there : get_elem? s.words (a / 0x1000 / 32) ≡ some (get_or s.words (a / 0x1000 / 32) 0)
  word_there = get_elem?-eq-get_or s.words (a / 0x1000 / 32) 0 inside

  pub set_frame-Update : (s' : Frames) × (set_frame a s ≡ ok s') × Update s s' (a / 0x1000) 1
  unfolding set_frame
  set_frame-Update =
      let w = get_or s.words (a / 0x1000 / 32) 0 in
      let k = a / 0x1000 % 32 in
      (
        record s { words = set s.words (a / 0x1000 / 32) (bit_or w (1 <<< k)) },
        rw word_there,
        write-Update s (a / 0x1000) (bit_or w (1 <<< k)) 1 bitmap inside
            (bit_or-lt 32 w (1 <<< k) (bitmap.in_width (a / 0x1000 / 32) inside)
              (one_shifted-lt k (omega arith)))
            (λ i h. bit-or_mask i k w),
      )

  pub clear_frame-Update : (s' : Frames) × (clear_frame a s ≡ ok s') × Update s s' (a / 0x1000) 0
  unfolding clear_frame
  clear_frame-Update =
      let w = get_or s.words (a / 0x1000 / 32) 0 in
      let k = a / 0x1000 % 32 in
      (
        record s { words = set s.words (a / 0x1000 / 32) (bit_and w (not32 (1 <<< k))) },
        rw word_there,
        write-Update s (a / 0x1000) (bit_and w (not32 (1 <<< k))) 0 bitmap inside
            (omega
              (arith, bit_and-le w (not32 (1 <<< k)), bitmap.in_width (a / 0x1000 / 32) inside))
            (λ i h. bit-and_not_mask i k w h (omega arith)),
      )

  pub test_frame-used : (r : ℕ) × (test_frame a s ≡ ok r) × ((r ≡ 0) ↔ (used s (a / 0x1000) ≡ 0))
  unfolding test_frame
  test_frame-used =
      let w = get_or s.words (a / 0x1000 / 32) 0 in
      let k = a / 0x1000 % 32 in (bit_and w (1 <<< k), rw word_there, mask_test k w)
