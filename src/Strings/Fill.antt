-- ===== src/Strings/Fill.antt =====
-- `memset`.
use loris.Base.{Memory, write, ℕ, zero, suc, ◌+◌, ◌≤◌, ◌<◌, ◌%◌, ◌≡◌, refl, ◌⊎◌, arith, u8}
use loris.Strings.{set_up, memset}

set_up_lem :
    (left i buf value hi : ℕ) (m : Memory)
    → i + left ≡ hi
    → ((j : ℕ) → i ≤ j → j < hi → set_up left i buf value m (buf + j) ≡ u8 value)
      × ((x : ℕ) → (x < buf + i) ⊎ (buf + hi ≤ x) → set_up left i buf value m x ≡ m x)
unfolding set_up
set_up_lem zero i buf value hi m e = (λ j p q. absurd (omega arith), λ x h. refl)
set_up_lem (suc left) i buf value hi m e =
    let (inside, outside) =
      set_up_lem left (i + 1) buf value hi (write m (buf + i) (u8 value)) (omega arith) in
    (λ j p q. ground (arith, inside j, outside (buf + j)), λ x h. ground (arith, outside x))

-- `memset` sets every byte of the array to the low byte of the value, and no other.
pub memset_lem :
    (buf value size : ℕ) (m : Memory)
    → ((j : ℕ) → j < size → memset buf value size m (buf + j) ≡ value % 256)
      × ((x : ℕ) → (x < buf) ⊎ (buf + size ≤ x) → memset buf value size m x ≡ m x)
unfolding memset
memset_lem buf value size m =
    let (inside, outside) = set_up_lem size 0 buf value size m (omega arith) in
    (λ j h. inside j (omega arith) h, λ x h. outside x (omega arith))
