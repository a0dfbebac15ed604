-- ===== src/Base/Outcome.antt =====
-- What a piece of the code can do: return, run into undefined behaviour (an access outside an
-- array, a function that ends without its return value), or stop for ever in `while (true);`.
use Prim.Native.Nat.{ℕ, zero, suc, ◌<◌, ◌≤◌}
use native.Mathlib.Omega.{arith}
use loris.Base.Lists.{length, get_or, set}
use mathlib.Core.Path.{◌≡◌, refl, ap}
use mathlib.Core.List.{List, [], ◌∷◌}
use mathlib.Core.Bool.{Bool, true, false}
use loris.Base.Tests.{if◌then◌else◌}
use mathlib.Core.Option.{Option, none, some}

pub data Run {ℓ} (A : Type ℓ) : Type ℓ where
  ok : A → Run A
  undefined : Run A
  halt : Run A

infixl 5 ◌>>=◌ ◌>>◌
abbrev pub ◌>>=◌ {ℓ κ} : {A : Type ℓ} {B : Type κ} → Run A → (A → Run B) → Run B
ok a >>= f = f a
undefined >>= f = undefined
halt >>= f = halt

abbrev pub ◌>>◌ {ℓ} : {B : Type ℓ} → Run (Unit {0}) → Run B → Run B
m >> k = m >>= λ _. k

-- The value of an access that is undefined where there is none.
abbrev pub from_option {ℓ} : {A : Type ℓ} → Option A → Run A
from_option none = undefined
from_option (some a) = ok a

pub >>=-assoc {ℓ κ μ} :
    {A : Type ℓ} {B : Type κ} {C : Type μ} (m : Run A) (f : A → Run B) (g : B → Run C)
    → ((m >>= f) >>= g) ≡ (m >>= λ a. f a >>= g)
>>=-assoc (ok a) f g = refl
>>=-assoc undefined f g = refl
>>=-assoc halt f g = refl

-- `a[i]` and `a[i] = v` on an array that ends with the list.
module _ {ℓ} {A : Type ℓ} where
  abbrev pub load : List A → ℕ → Run A
  load [] i = undefined
  load (x ∷ xs) zero = ok x
  load (x ∷ xs) (suc i) = load xs i

  abbrev pub store : List A → ℕ → A → Run (List A)
  store [] i v = undefined
  store (x ∷ xs) zero v = ok (v ∷ xs)
  store (x ∷ xs) (suc i) v = store xs i v >>= λ r. ok (x ∷ r)

pub if->>= {ℓ κ} :
    {A : Type ℓ} {B : Type κ} (b : Bool) (m m' : Run A) (f : A → Run B)
    → ((if b then m else m') >>= f) ≡ (if b then m >>= f else m' >>= f)
if->>= true m m' f = refl
if->>= false m m' f = refl

module _ {ℓ} {A : Type ℓ} where
  pub load_ok : (xs : List A) (i : ℕ) (d : A) → i < length xs → load xs i ≡ ok (get_or xs i d)
  load_ok [] i d h = elim h [ ]
  load_ok (x ∷ xs) zero d h = refl
  load_ok (x ∷ xs) (suc i) d h = load_ok xs i d (omega arith)

  pub load_undefined : (xs : List A) (i : ℕ) → length xs ≤ i → load xs i ≡ undefined
  load_undefined [] i h = refl
  load_undefined (x ∷ xs) zero h = absurd (omega arith)
  load_undefined (x ∷ xs) (suc i) h = load_undefined xs i (omega arith)

  pub store_ok : (xs : List A) (i : ℕ) (v : A) → i < length xs → store xs i v ≡ ok (set xs i v)
  store_ok [] i v h = elim h [ ]
  store_ok (x ∷ xs) zero v h = refl
  store_ok (x ∷ xs) (suc i) v h = ap (λ m. m >>= λ r. ok (x ∷ r)) (store_ok xs i v (omega arith))

  pub store_undefined : (xs : List A) (i : ℕ) (v : A) → length xs ≤ i → store xs i v ≡ undefined
  store_undefined [] i v h = refl
  store_undefined (x ∷ xs) zero v h = absurd (omega arith)
  store_undefined (x ∷ xs) (suc i) v h =
      ap (λ m. m >>= λ r. ok (x ∷ r)) (store_undefined xs i v (omega arith))

-- A chain that returns has a first step that returns.
pub ok_of_chain {ℓ κ} :
    {A : Type ℓ} {B : Type κ} {b : B} (f : A → Run B) (m : Run A)
    → (m >>= f) ≡ ok b
    → (a : A) × (m ≡ ok a) × (f a ≡ ok b)
ok_of_chain f undefined e = cc
ok_of_chain f halt e = cc
ok_of_chain f (ok a) e = (a, refl, e)
