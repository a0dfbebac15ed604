-- ===== src/Frames/Search.antt =====
-- `first_frame`: it finds the lowest free frame, and has no result where every frame is used.
use native.Mathlib.Decide.{ℕ_discrete, dec_lt}
use loris.Base.{
  ℕ, zero, suc, ◌+◌, ◌*◌, ◌/◌, ◌%◌, ◌^◌, ◌≤◌, ◌<◌, ◌≡◌, refl, ◌≢◌, ◌⊎◌, inl, inr, arith, ◌==◌,
  bit_and, Bool-cases, none, some, List, get_or, length, get_elem?-eq-get_or, get_elem?-eq-none, ok,
  undefined, ◌<<<◌, bit, bit-lt, ==_iff, bit-complement, bit-zero, ◌∙◌,
}
use loris.Frames.{Frames, scan_word, first_frame_from, first_frame}
use loris.Frames.Bitmap.{used, InRange, IsBitmap, mask_test}

-- Bits `j` to `j + left` are set below what the scan returns.
abbrev ScanResult : ℕ → ℕ → ℕ → Type 0
ScanResult left j w =
    ((scan_word left j w ≡ none) × ((m : ℕ) → j ≤ m → m < j + left → bit m w ≡ 1))
    ⊎ ((r : ℕ) × (scan_word left j w ≡ some r)
        × (j ≤ r)
        × (r < j + left)
        × (bit r w ≡ 0)
        × ((m : ℕ) → j ≤ m → m < r → bit m w ≡ 1))

scan_cases : (left j w : ℕ) → ScanResult left j w
unfolding scan_word
scan_cases zero j w = inl (refl, λ m p q. absurd (omega arith))
scan_cases (suc left) j w = elim (Bool-cases (bit_and w (1 <<< j) == 0)) [
  | inl e ↦ inr (
    j,
    rw e,
    omega arith,
    omega arith,
    ground (arith, mask_test j w),
    λ m p q. absurd (omega arith),
  )
  | inr e ↦
      let here : bit j w ≡ 1 = ground (arith, mask_test j w, bit-lt j w) in
      let later : (m : ℕ) → j ≤ m → m ≢ j → j + 1 ≤ m = λ m p q. omega arith in
      elim (scan_cases left (j + 1) w) [
        | inl (eq, all) ↦ inl (rw e eq, λ m p q. ground (arith, here, all m))
        | inr (r, eq, lo, hi, free, all) ↦
            inr (r, rw e eq, omega arith, omega arith, free, λ m p q. ground (arith, here, all m))
      ]
]

abbrev bit_at : List ℕ → ℕ → ℕ
bit_at words g = bit (g % 32) (get_or words (g / 32) 0)

abbrev FirstResult : ℕ → ℕ → List ℕ → Type 0
FirstResult left i words =
    ((first_frame_from left i words ≡ undefined)
      × ((g : ℕ) → i ≤ g / 32 → g / 32 < i + left → g / 32 < length words → bit_at words g ≡ 1))
    ⊎ ((f : ℕ) × (first_frame_from left i words ≡ ok f)
        × (i ≤ f / 32)
        × (f / 32 < i + left)
        × (f / 32 < length words)
        × (bit_at words f ≡ 0)
        × ((g : ℕ) → i ≤ g / 32 → g < f → bit_at words g ≡ 1))

-- The word that the search skips: all its bits are set.
pub bit-full : (m : ℕ) → m < 32 → bit m 0xFFFFFFFF ≡ 1
bit-full m h = omega (arith, bit-complement 32 m 0 (omega arith) h, bit-zero m)

-- A word without a clear bit hands over to the next.
skip_word :
    (left i : ℕ) (words : List ℕ)
    → first_frame_from (suc left) i words ≡ first_frame_from left (i + 1) words
    → ((m : ℕ) → m < 32 → bit m (get_or words i 0) ≡ 1)
    → FirstResult left (i + 1) words
    → FirstResult (suc left) i words
skip_word left i words e full (inl (eq, all)) = inl (
  e ∙ eq,
  λ g p q room. elim (ℕ_discrete (g / 32) i) [
    | yes at ↦ rw at (full (g % 32) (omega arith))
    | no ne ↦ all g (omega arith) (omega arith) room
  ],
)
skip_word left i words e full (inr (f, eq, lo, hi, room, free, all)) = inr (
  f,
  e ∙ eq,
  omega arith,
  omega arith,
  room,
  free,
  λ g p q. elim (ℕ_discrete (g / 32) i) [
    | yes at ↦ rw at (full (g % 32) (omega arith))
    | no ne ↦ all g (omega arith) q
  ],
)

-- The search at the end of the array reads outside it.
first_outside : (left i : ℕ) (words : List ℕ) → length words ≤ i → FirstResult (suc left) i words
unfolding first_frame_from
first_outside left i words h =
    inl (rw (get_elem?-eq-none words i h) refl, λ g p q room. absurd (omega arith))

first_inside :
    (left i : ℕ) (words : List ℕ)
    → i < length words
    → FirstResult left (i + 1) words
    → FirstResult (suc left) i words
unfolding first_frame_from
first_inside left i words h rest =
    let there = get_elem?-eq-get_or words i 0 h in
    elim (Bool-cases (get_or words i 0 == 0xFFFFFFFF)) [
      | inl e ↦
          skip_word left i words (rw (there, e))
            (λ m p. rw ((==_iff (get_or words i 0) 0xFFFFFFFF).0 e) (bit-full m p)) rest
      | inr e ↦ elim (scan_cases 32 0 (get_or words i 0)) [
        | inl (eq, all) ↦
            skip_word left i words (rw (there, e, eq)) (λ m p. all m (omega arith) p) rest
        | inr (r, eq, lo, hi, free, all) ↦
            let at : (i * 4 * 8 + r) / 32 ≡ i = omega arith in
            let off : (i * 4 * 8 + r) % 32 ≡ r = omega arith in
            inr (
              i * 4 * 8 + r,
              rw (there, e, eq),
              omega arith,
              omega arith,
              omega arith,
              rw (at, off) free,
              λ g p q.
                  let same : g / 32 ≡ i = omega arith in
                  rw same (all (g % 32) (omega arith) (omega arith)),
            )
      ]
    ]

first_cases : (left i : ℕ) (words : List ℕ) → FirstResult left i words
first_cases zero i words = inl (unfold first_frame_from in refl, λ g p q room. absurd (omega arith))
first_cases (suc left) i words = elim (dec_lt i (length words)) [
  | yes inside ↦ first_inside left i words inside (first_cases left (i + 1) words)
  | no outside ↦ first_outside left i words (omega arith)
]

-- `first_frame` on a bitmap either returns the lowest free frame, or ends without a result
-- because every frame below `nframes` (in whole words) that is in the array is used.
pub first_frame_lem :
    (s : Frames)
    → IsBitmap s
    → ((first_frame s ≡ undefined) × ((g : ℕ) → InRange s g → used s g ≡ 1))
      ⊎ ((f : ℕ) × (first_frame s ≡ ok f)
          × InRange s f
          × (used s f ≡ 0)
          × ((g : ℕ) → g < f → used s g ≡ 1))
unfolding first_frame
first_frame_lem s bitmap = elim (first_cases (s.nframes / 32) 0 s.words) [
  | inl (eq, all) ↦ inl (eq, λ g p. all g (omega arith) (omega (arith, p.0)) p.1)
  | inr (f, eq, lo, hi, room, free, all) ↦
      inr (f, eq, (omega arith, room), free, λ g p. all g (omega arith) p)
]

-- If some frame is free, `first_frame` returns a free frame, and none lower is free.
pub first_frame-lowest :
    (s : Frames) (g : ℕ)
    → IsBitmap s
    → InRange s g
    → used s g ≡ 0
    → (f : ℕ) × (first_frame s ≡ ok f) × (f ≤ g) × (used s f ≡ 0) × ((h : ℕ) → h < f → used s h ≡ 1)
first_frame-lowest s g bitmap inside free = elim (first_frame_lem s bitmap) [
  | inl (eq, all) ↦ absurd (omega (arith, all g inside))
  | inr (f, eq, hi, clear, all) ↦ (f, eq, ground (arith, all g), clear, all)
]

-- `first_frame` never returns -1, the value that its caller takes for "no free frames".
pub first_frame-ne_minus_one : (s : Frames) (f : ℕ) → IsBitmap s → first_frame s ≡ ok f → f < 2 ^ 20
first_frame-ne_minus_one s f bitmap e = elim (first_frame_lem s bitmap) [
  | inl (eq, all) ↦ absurd (ground arith)
  | inr (g, eq, hi, clear, all) ↦
      let same : ok f ≡ ok g = cc in ground (arith, hi.1, bitmap.addressable)
]
