-- ===== src/Strings/Tests.antt =====
-- The string functions on a memory with the string "abc" at 100.
use loris.Base.{ℕ, zero, suc, ◌+◌, ◌<◌, ◌≡◌, refl, ◌≢◌, inr, arith, Memory, write, some, pos}
use loris.Strings.{memmove, strlen, strcmp, strcpy, copy_down}
use loris.Strings.Copy.{IsCopied, memmove-IsCopied}
use loris.Strings.CString.{IsString}
use loris.Strings.Duplicate.{strcpy-strlen-strcmp}

abbrev text : Memory
text = write (write (write (λ _. 0) 100 b'a') 101 b'b') 102 b'c'

abbrev overlap_result : Memory
overlap_result = memmove 101 100 3 text

text-IsString : IsString text 100 3
text-IsString = record { bytes = go; ends = refl }
  where
    go : (i : ℕ) → i < 3 → text (100 + i) ≢ 0
    go zero h = omega arith
    go (suc zero) h = omega arith
    go (suc (suc zero)) h = omega arith
    go (suc (suc (suc i))) h = absurd (omega arith)

overlap_run : overlap_result 103 ≡ b'c'
unfolding memmove copy_down
overlap_run = refl

memmove-IsCopied_example : IsCopied 101 100 0 3 text (memmove 101 100 3 text)
memmove-IsCopied_example = memmove-IsCopied 101 100 3 text

strcpy-strlen-strcmp_example :
    (m' : Memory) × (strcpy 4 200 100 text ≡ some (200, m'))
    × (strlen 4 200 m' ≡ some 3)
    × (strcmp 4 200 100 m' ≡ some (pos 0))
strcpy-strlen-strcmp_example =
    strcpy-strlen-strcmp 4 200 100 3 text text-IsString (inr (omega arith)) (omega arith)
      (omega arith)
