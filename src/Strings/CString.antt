-- ===== src/Strings/CString.antt =====
-- Strings that end at a zero byte, and `strlen`.
use loris.Base.{Memory, ℕ, zero, suc, ◌+◌, ◌-◌, ◌≤◌, ◌<◌, ◌≡◌, ◌≢◌, arith, some}
use loris.Strings.{strlen_from, strlen}

-- At `a` stand `n` bytes that are not zero, and then a zero.
pub record IsString (m : Memory) (a n : ℕ) : Type 0 where
  pub bytes : (i : ℕ) → i < n → m (a + i) ≢ 0
  pub ends : m (a + n) ≡ 0

pub IsString-tail : (m : Memory) (a n : ℕ) → IsString m a (suc n) → IsString m (a + 1) n
IsString-tail m a n s = record {
  bytes =
      λ i h. let e : a + 1 + i ≡ a + suc i = omega arith in rw e (s.bytes (suc i) (omega arith));
  ends = let e : a + 1 + n ≡ a + suc n = omega arith in rw e s.ends;
}

pub first_byte : (m : Memory) (a n : ℕ) → IsString m a (suc n) → m a ≢ 0
first_byte m a n s = let e : a ≡ a + 0 = omega arith in rw e (s.bytes 0 (omega arith))

pub end_byte : (m : Memory) (a : ℕ) → IsString m a 0 → m a ≡ 0
end_byte m a s = let e : a ≡ a + 0 = omega arith in rw e s.ends

strlen_from_lem :
    (fuel len str n : ℕ) (m : Memory)
    → IsString m str n
    → len ≤ n
    → n - len < fuel
    → strlen_from fuel len str m ≡ some n
unfolding strlen_from
strlen_from_lem zero len str n m s le h = elim h [ ]
strlen_from_lem (suc fuel) len str n m s le h =
    ground (arith, s.bytes len, s.ends, strlen_from_lem fuel (len + 1) str n m s)

-- On a string of `n` bytes `strlen` comes to its end and returns `n`; fuel for `n` rounds and the
-- last test is enough.
pub strlen_lem :
    (fuel str n : ℕ) (m : Memory) → IsString m str n → n < fuel → strlen fuel str m ≡ some n
unfolding strlen
strlen_lem fuel str n m s h = strlen_from_lem fuel 0 str n m s (omega arith) (omega arith)
