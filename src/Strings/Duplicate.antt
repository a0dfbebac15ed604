-- ===== src/Strings/Duplicate.antt =====
-- `strcpy`.
use loris.Base.{
  Memory, write, ℕ, zero, suc, ◌+◌, ◌≤◌, ◌<◌, ◌≡◌, refl, sym, ap, ◌∙◌, ◌≢◌, ◌⊎◌, arith, some, pos,
}
use loris.Strings.{strcpy_from, strcpy, strcmp, strlen}
use loris.Strings.Copy.{IsCopied}
use loris.Strings.CString.{IsString, IsString-tail, first_byte, end_byte, strlen_lem}
use loris.Strings.Compare.{strcmp-SameString}

-- The two arrays of `n + 1` bytes share no byte.
abbrev pub Apart : ℕ → ℕ → ℕ → Type 0
Apart d s n = (d + n < s) ⊎ (s + n < d)

-- A write outside a string leaves the string.
IsString-write :
    (m : Memory) (a n x v : ℕ) → IsString m a n → (x < a) ⊎ (a + n < x) → IsString (write m x v) a n
IsString-write m a n x v s out = record {
  bytes = λ i h. ground (arith, s.bytes i);
  ends = ground (arith, s.ends);
}

IsCopied-cons :
    (d s n : ℕ) (m m' : Memory)
    → Apart d s (suc n)
    → IsCopied (d + 1) (s + 1) 0 (suc n) (write m d (m s)) m'
    → IsCopied d s 0 (suc (suc n)) m m'
IsCopied-cons d s n m m' apart c = record {
  inside = go;
  outside = λ x o. ground (arith, c.outside x);
}
  where
    go : (j : ℕ) → 0 ≤ j → j < suc (suc n) → m' (d + j) ≡ m (s + j)
    go zero p q =
        let e : d + 0 ≡ d = omega arith in
        let e' : s + 0 ≡ s = omega arith in rw (e, e') (ground (arith, c.outside d))
    go (suc j) p q =
        let e : d + suc j ≡ d + 1 + j = omega arith in
        let e' : s + suc j ≡ s + 1 + j = omega arith in rw (e, e') (ground (arith, c.inside j))

strcpy_from-IsCopied :
    (fuel d s n : ℕ) (m : Memory)
    → IsString m s n
    → Apart d s n
    → n < fuel
    → (m' : Memory) × (strcpy_from fuel d s m ≡ some m') × IsCopied d s 0 (suc n) m m'
unfolding strcpy_from
strcpy_from-IsCopied zero d s n m str apart h = elim h [ ]
strcpy_from-IsCopied (suc fuel) d s zero m str apart h =
    let e = end_byte m s str in
    (
      write m d 0,
      ground arith,
      record { inside = λ j p q. only j q e; outside = λ x o. ground arith },
    )
  where
    only : (j : ℕ) → j < 1 → m s ≡ 0 → write m d 0 (d + j) ≡ m (s + j)
    only zero q e = let e' : s + 0 ≡ s = omega arith in rw e' (ground arith)
    only (suc j) q e = absurd (omega arith)
strcpy_from-IsCopied (suc fuel) d s (suc n) m str apart h =
    let first = first_byte m s n str in
    let (m', run, c) =
      strcpy_from-IsCopied fuel (d + 1) (s + 1) n (write m d (m s))
        (IsString-write m (s + 1) n d (m s) (IsString-tail m s n str) (omega arith)) (omega arith)
        (omega arith) in
    (m', ground (arith, run), IsCopied-cons d s n m m' apart c)

-- `strcpy` of a string to an array that it does not overlap returns the destination, and copies the
-- bytes and the final zero and writes nowhere else.
pub strcpy-IsCopied :
    (fuel d s n : ℕ) (m : Memory)
    → IsString m s n
    → Apart d s n
    → d ≢ 0
    → n < fuel
    → (m' : Memory) × (strcpy fuel d s m ≡ some (d, m')) × IsCopied d s 0 (suc n) m m'
unfolding strcpy
strcpy-IsCopied fuel d s n m str apart nonnull h =
    let (m', run, c) = strcpy_from-IsCopied fuel d s n m str apart h in (m', ground (arith, run), c)

-- Where `strcpy` copies a string to an array that it does not overlap, the copy is a string of the
-- same length: `strlen` measures it, and `strcmp` returns 0 on the copy and the original.
pub strcpy-strlen-strcmp :
    (fuel d s n : ℕ) (m : Memory)
    → IsString m s n
    → Apart d s n
    → d ≢ 0
    → n < fuel
    → (m' : Memory) × (strcpy fuel d s m ≡ some (d, m'))
      × (strlen fuel d m' ≡ some n)
      × (strcmp fuel d s m' ≡ some (pos 0))
strcpy-strlen-strcmp fuel d s n m str apart nonnull h =
    let (m', run, c) = strcpy-IsCopied fuel d s n m str apart nonnull h in
    let same : (i : ℕ) → i < suc n → m' (d + i) ≡ m' (s + i) =
      λ i p. c.inside i (omega arith) p ∙ sym (c.outside (s + i) (omega arith)) in
    let there : IsString m' s n = record {
      bytes = λ i p. rw (c.outside (s + i) (omega arith)) (str.bytes i p);
      ends = rw (c.outside (s + n) (omega arith)) str.ends;
    } in
    let copy : IsString m' d n = record {
      bytes = λ i p. rw (c.inside i (omega arith) (omega arith)) (str.bytes i p);
      ends = rw (c.inside n (omega arith) (omega arith)) str.ends;
    } in
    let (r, compared, zero_iff) = strcmp-SameString fuel d s n n m' copy there h in
    let is_zero : r ≡ pos 0 = zero_iff.1 (refl, λ i p. same i (omega arith)) in
    (m', run, strlen_lem fuel d n m' copy h, compared ∙ ap some is_zero)
