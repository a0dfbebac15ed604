-- ===== src/Strings/Copy.antt =====
-- `memmove` and `memcpy`.
use native.Mathlib.Decide.{dec_le}
use mathlib.Core.Path.{subst}
use loris.Base.{
  Memory, write, ℕ, zero, suc, ◌+◌, ◌-◌, ◌≤◌, ◌<◌, ◌≡◌, refl, ◌⊎◌, inl, inr, arith, ltb, fun_ext,
  Bool-cases,
}
use loris.Strings.{copy_up, copy_down, memcpy, memmove}

-- From `m` to `m'` the bytes `lo` to `hi` of the array `src` went to the array `dst`, as they were
-- in `m`, and nothing else changed.
pub record IsCopied (dst src lo hi : ℕ) (m m' : Memory) : Type 0 where
  pub inside : (j : ℕ) → lo ≤ j → j < hi → m' (dst + j) ≡ m (src + j)
  pub outside : (x : ℕ) → (x < dst + lo) ⊎ (dst + hi ≤ x) → m' x ≡ m x

copy_up-IsCopied :
    (left i dst src hi : ℕ) (m : Memory)
    → i + left ≡ hi
    → (dst ≤ src) ⊎ (src + hi ≤ dst)
    → IsCopied dst src i hi m (copy_up left i dst src m)
unfolding copy_up
copy_up-IsCopied zero i dst src hi m e apart = record {
  inside = λ j p q. absurd (omega arith);
  outside = λ x h. refl;
}
copy_up-IsCopied (suc left) i dst src hi m e apart =
    let m' = write m (dst + i) (m (src + i)) in
    let rest = copy_up-IsCopied left (i + 1) dst src hi m' (omega arith) apart in
    record {
      inside = λ j p q. ground (arith, rest.inside j, rest.outside (dst + j));
      outside = λ x h. ground (arith, rest.outside x);
    }

copy_down-IsCopied :
    (i dst src : ℕ) (m : Memory) → src ≤ dst → IsCopied dst src 0 i m (copy_down i dst src m)
unfolding copy_down
copy_down-IsCopied zero dst src m le = record {
  inside = λ j p q. absurd (omega arith);
  outside = λ x h. refl;
}
copy_down-IsCopied (suc i) dst src m le =
    let m' = write m (dst + i) (m (src + i)) in
    let rest = copy_down-IsCopied i dst src m' le in
    record {
      inside = λ j p q. ground (arith, rest.inside j, rest.outside (dst + j));
      outside = λ x h. ground (arith, rest.outside x);
    }

-- `memmove` copies the source as it was, however the two arrays overlap, and writes nowhere else.
pub memmove-IsCopied :
    (dst src size : ℕ) (m : Memory) → IsCopied dst src 0 size m (memmove dst src size m)
unfolding memmove
memmove-IsCopied dst src size m = elim (Bool-cases (ltb dst src)) [
  | inl h ↦ rw h (copy_up-IsCopied size 0 dst src size m (omega arith) (ground arith))
  | inr h ↦ rw h (copy_down-IsCopied size dst src m (ground arith))
]

IsCopied-unique :
    (dst src n : ℕ) (m m' m'' : Memory)
    → IsCopied dst src 0 n m m'
    → IsCopied dst src 0 n m m''
    → (x : ℕ) → m' x ≡ m'' x
IsCopied-unique dst src n m m' m'' c d x = elim (dec_le dst x) [
  | yes le ↦
      let e : dst + (x - dst) ≡ x = omega arith in
      subst (λ (y : ℕ). m' y ≡ m'' y) e
        (ground (
          arith,
          c.inside (x - dst),
          d.inside (x - dst),
          c.outside (dst + (x - dst)),
          d.outside (dst + (x - dst)),
        ))
  | no gt ↦ ground (arith, c.outside x, d.outside x)
]

-- `memcpy` is `memmove` unless the destination begins inside the source, behind its first byte.
pub memcpy-eq-memmove :
    (dst src size : ℕ) (m : Memory)
    → (dst ≤ src) ⊎ (src + size ≤ dst)
    → memcpy dst src size m ≡ memmove dst src size m
unfolding memcpy
memcpy-eq-memmove dst src size m apart = fun_ext (
    IsCopied-unique dst src size m (copy_up size 0 dst src m) (memmove dst src size m)
      (copy_up-IsCopied size 0 dst src size m (omega arith) apart)
      (memmove-IsCopied dst src size m))
