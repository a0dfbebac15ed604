-- ===== src/Strings/Compare.antt =====
-- `memcmp` and `strcmp`.
use native.Mathlib.Decide.{ℕ_discrete}
use loris.Base.{
  Memory, ℕ, zero, suc, ◌+◌, ◌≤◌, ◌<◌, ◌≡◌, refl, ◌↔◌, inl, inr, arith, some, ltb, ℤ, pos, negsuc,
  sub_ℕ, sub_ℕ-eq_zero_iff, Bool-cases,
}
use loris.Strings.{compare_up, memcmp, strcmp}
use loris.Strings.CString.{IsString, IsString-tail, first_byte, end_byte}

-- The two arrays agree from `lo` to `k`, where the first has the smaller byte.
abbrev pub FirstLess : Memory → ℕ → ℕ → ℕ → ℕ → Type 0
FirstLess m a b lo k = ((j : ℕ) → lo ≤ j → j < k → m (a + j) ≡ m (b + j)) × (m (a + k) < m (b + k))

-- The result of `memcmp` with the reason for it.
pub data Verdict (m : Memory) (a b lo hi : ℕ) : ℤ → Type 0 where
  equal : ((j : ℕ) → lo ≤ j → j < hi → m (a + j) ≡ m (b + j)) → Verdict m a b lo hi (pos 0)
  less : (k : ℕ) → lo ≤ k → k < hi → FirstLess m a b lo k → Verdict m a b lo hi (negsuc 0)
  greater : (k : ℕ) → lo ≤ k → k < hi → FirstLess m b a lo k → Verdict m a b lo hi (pos 1)

Verdict-step :
    (m : Memory) (a b i hi : ℕ) {r : ℤ}
    → m (a + i) ≡ m (b + i)
    → Verdict m a b (i + 1) hi r
    → Verdict m a b i hi r
Verdict-step m a b i hi e (equal all) = equal (λ j p q. ground (arith, all j))
Verdict-step m a b i hi e (less k lo up (all, lt)) =
    less k (omega arith) up (λ j p q. ground (arith, all j), lt)
Verdict-step m a b i hi e (greater k lo up (all, lt)) =
    greater k (omega arith) up (λ j p q. ground (arith, all j), lt)

compare_up-Verdict :
    (left i a b hi : ℕ) (m : Memory) → i + left ≡ hi → Verdict m a b i hi (compare_up left i a b m)
unfolding compare_up
compare_up-Verdict zero i a b hi m e = equal (λ j p q. absurd (omega arith))
compare_up-Verdict (suc left) i a b hi m e =
    let rest = compare_up-Verdict left (i + 1) a b hi m (omega arith) in
    elim (Bool-cases (ltb (m (a + i)) (m (b + i)))) [
      | inl h ↦
          rw h (less i (omega arith) (omega arith) (λ j p q. absurd (omega arith), ground arith))
      | inr h ↦ elim (Bool-cases (ltb (m (b + i)) (m (a + i)))) [
        | inl k ↦
            rw (h, k)
              (greater i (omega arith) (omega arith) (λ j p q. absurd (omega arith), ground arith))
        | inr k ↦ rw (h, k) (Verdict-step m a b i hi (ground arith) rest)
      ]
    ]

-- `memcmp` returns 0 where all bytes agree, and otherwise -1 or 1 by the first byte that differs,
-- taken as unsigned.
pub memcmp-Verdict : (a b size : ℕ) (m : Memory) → Verdict m a b 0 size (memcmp a b size m)
unfolding memcmp
memcmp-Verdict a b size m = compare_up-Verdict size 0 a b size m (omega arith)

-- Two strings of one memory with the same bytes.
abbrev pub SameString : Memory → ℕ → ℕ → ℕ → ℕ → Type 0
SameString m x y n k = (n ≡ k) × ((i : ℕ) → i < n → m (x + i) ≡ m (y + i))

SameString-cons :
    (m : Memory) (x y n k : ℕ)
    → m x ≡ m y
    → SameString m (x + 1) (y + 1) n k ↔ SameString m x y (suc n) (suc k)
SameString-cons m x y n k e = (forth, back)
  where
    forth : SameString m (x + 1) (y + 1) n k → SameString m x y (suc n) (suc k)
    forth (e', all) = (omega arith, go)
      where
        go : (i : ℕ) → i < suc n → m (x + i) ≡ m (y + i)
        go zero h =
            let p : x + 0 ≡ x = omega arith in let q : y + 0 ≡ y = omega arith in rw (p, q) e
        go (suc i) h =
            let p : x + suc i ≡ x + 1 + i = omega arith in
            let q : y + suc i ≡ y + 1 + i = omega arith in rw (p, q) (all i (omega arith))

    back : SameString m x y (suc n) (suc k) → SameString m (x + 1) (y + 1) n k
    back (e', all) = (
      omega arith,
      λ i h.
          let p : x + 1 + i ≡ x + suc i = omega arith in
          let q : y + 1 + i ≡ y + suc i = omega arith in rw (p, q) (all (suc i) (omega arith)),
    )

-- On two strings `strcmp` returns, with fuel for the first one, and it returns 0 exactly when they
-- are the same.
pub strcmp-SameString :
    (fuel x y n k : ℕ) (m : Memory)
    → IsString m x n
    → IsString m y k
    → n < fuel
    → (r : ℤ) × (strcmp fuel x y m ≡ some r) × ((r ≡ pos 0) ↔ SameString m x y n k)
unfolding strcmp
strcmp-SameString zero x y n k m s t h = elim h [ ]
strcmp-SameString (suc fuel) x y zero zero m s t h =
    let p = end_byte m x s in
    let q = end_byte m y t in (pos 0, ground arith, (λ _. (refl, λ i l. elim l [ ]), λ _. refl))
strcmp-SameString (suc fuel) x y zero (suc k) m s t h =
    let p = end_byte m x s in
    let q = first_byte m y k t in
    (sub_ℕ (m x) (m y), ground arith, (λ e. ground arith, λ same. ground arith))
strcmp-SameString (suc fuel) x y (suc n) zero m s t h =
    let p = first_byte m x n s in
    let q = end_byte m y t in
    (sub_ℕ (m x) (m y), ground arith, (λ e. ground arith, λ same. ground arith))
strcmp-SameString (suc fuel) x y (suc n) (suc k) m s t h =
    let p = first_byte m x n s in
    elim (ℕ_discrete (m x) (m y)) [
      | yes e ↦
          let (r, run, same) =
            strcmp-SameString fuel (x + 1) (y + 1) n k m (IsString-tail m x n s)
              (IsString-tail m y k t) (omega arith) in
          let cons = SameString-cons m x y n k e in
          (r, ground (arith, run), (λ z. cons.0 (same.0 z), λ z. same.1 (cons.1 z)))
      | no ne ↦ (
        sub_ℕ (m x) (m y),
        ground arith,
        (
          λ e. absurd (ne ((sub_ℕ-eq_zero_iff (m x) (m y)).0 e)),
          λ (e, all). absurd (ne (first_same all)),
        ),
      )
    ]
  where
    first_same : ((i : ℕ) → i < suc n → m (x + i) ≡ m (y + i)) → m x ≡ m y
    first_same all =
        let e : x + 0 ≡ x = omega arith in
        let e' : y + 0 ≡ y = omega arith in rw (e, e') at (all 0 (omega arith))
