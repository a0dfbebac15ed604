-- ===== src/Strings.antt =====
-- The functions of libc/string, on a memory of bytes.
pub mod Copy
pub mod Fill
pub mod CString
pub mod Compare
pub mod Duplicate
mod Tests
use loris.Base.{
  ℕ, zero, suc, ◌+◌, ◌-◌, Bool, Option, none, some, ◌==◌, ltb, if◌then◌else◌, u8, ℤ, pos, negsuc,
  sub_ℕ, Memory, write,
}

-- `for (i = 0; i < size; i++) dst[i] = src[i];` at `i`, with `size - i` rounds left.
unfoldable pub copy_up : (left i dst src : ℕ) → Memory → Memory
copy_up zero i dst src m = m
copy_up (suc left) i dst src m = copy_up left (i + 1) dst src (write m (dst + i) (m (src + i)))

-- `for (i = size; i != 0; i--) dst[i-1] = src[i-1];` at `i`.
unfoldable pub copy_down : (i dst src : ℕ) → Memory → Memory
copy_down zero dst src m = m
copy_down (suc i) dst src m = copy_down i dst src (write m (dst + i) (m (src + i)))

unfoldable pub memcpy : (dst src size : ℕ) → Memory → Memory
memcpy dst src size m = copy_up size 0 dst src m

unfoldable pub memmove : (dst src size : ℕ) → Memory → Memory
memmove dst src size m = if ltb dst src then copy_up size 0 dst src m else copy_down size dst src m

unfoldable pub set_up : (left i buf value : ℕ) → Memory → Memory
set_up zero i buf value m = m
set_up (suc left) i buf value m = set_up left (i + 1) buf value (write m (buf + i) (u8 value))

unfoldable pub memset : (buf value size : ℕ) → Memory → Memory
memset buf value size m = set_up size 0 buf value m

-- The loop of `memcmp` at `i`, with `size - i` rounds left.
unfoldable pub compare_up : (left i a b : ℕ) → Memory → ℤ
compare_up zero i a b m = pos 0
compare_up (suc left) i a b m =
    let rest = compare_up left (i + 1) a b m in
    if ltb (m (a + i)) (m (b + i))
    then negsuc 0
    else if ltb (m (b + i)) (m (a + i))
    then pos 1
    else rest

unfoldable pub memcmp : (a b size : ℕ) → Memory → ℤ
memcmp a b size m = compare_up size 0 a b m

-- The loops below end at a zero byte. They run on fuel; `none` means that it ran out.
unfoldable pub strlen_from : (fuel len str : ℕ) → Memory → Option ℕ
strlen_from zero len str m = none
strlen_from (suc fuel) len str m =
    let rest = strlen_from fuel (len + 1) str m in if m (str + len) == 0 then some len else rest

unfoldable pub strlen : (fuel str : ℕ) → Memory → Option ℕ
strlen fuel str m = strlen_from fuel 0 str m

unfoldable pub strcmp : (fuel x y : ℕ) → Memory → Option ℤ
strcmp zero x y m = none
strcmp (suc fuel) x y m =
    let rest = strcmp fuel (x + 1) (y + 1) m in
    if m x == 0
    then some (sub_ℕ (m x) (m y))
    else if m x == m y
    then rest
    else some (sub_ℕ (m x) (m y))

-- The loop of `strcpy` and the zero byte behind it.
unfoldable pub strcpy_from : (fuel destination source : ℕ) → Memory → Option Memory
strcpy_from zero destination source m = none
strcpy_from (suc fuel) destination source m =
    let rest = strcpy_from fuel (destination + 1) (source + 1) (write m destination (m source)) in
    if m source == 0 then some (write m destination 0) else rest

-- The pointer that `strcpy` returns, beside the memory.
unfoldable pub strcpy : (fuel destination source : ℕ) → Memory → Option (ℕ × Memory)
strcpy fuel destination source m =
    if destination == 0 then some (0, m) else elim (strcpy_from fuel destination source m) [
      | none ↦ none
      | some m' ↦ some (destination, m')
    ]
