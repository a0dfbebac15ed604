-- ===== src/OrderedList.antt =====
-- The class template OrderedList<T> of Util/OrderedList.h: an array of at most `max_size` elements,
-- the first `size` of them in use, kept in the order of a predicate.
pub mod Spec
pub mod Insert
pub mod Remove
pub mod Sorted
pub mod Places
mod Tests
use loris.Base.{
  ℕ, zero, suc, ◌-◌, ◌+◌, Bool, List, ◌==◌, ltb, if◌then◌else◌, replicate, Run, ok, ◌>>=◌, load,
  store, u32, sub32,
}

pub record OrderedList {ℓ} (T : Type ℓ) : Type ℓ where
  pub elements : List T
  pub size : ℕ
  pub max_size : ℕ

-- Both constructors clear the array, to the value of T whose bytes are 0.
unfoldable pub ordered_list {ℓ} : {T : Type ℓ} → T → ℕ → OrderedList T
ordered_list null max_size = record {
  elements = replicate max_size null;
  size = 0;
  max_size = max_size;
}

unfoldable pub get_item_at_index {ℓ} : {T : Type ℓ} → ℕ → OrderedList T → Run T
get_item_at_index index l = load l.elements index

-- The loop of `Insert` that moves the elements from `iterator` on up by one place.
unfoldable pub shift_up {ℓ} : {T : Type ℓ} → (left iterator : ℕ) → T → List T → Run (List T)
shift_up zero iterator tmp es = ok es
shift_up (suc left) iterator tmp es = do
  tmp2 ← load es (suc iterator)
  es' ← store es (suc iterator) tmp
  shift_up left (suc iterator) tmp2 es'

module _ {ℓ} {T : Type ℓ} (less_than : T → T → Bool) where
  -- The loop of `Insert` that looks for the place, with `m_size - iterator` rounds left.
  unfoldable pub find_place : (left iterator : ℕ) → T → List T → Run ℕ
  find_place zero iterator item es = ok iterator
  find_place (suc left) iterator item es = do
    e ← load es iterator
    let rest = find_place left (suc iterator) item es
    if less_than e item then rest else ok iterator

-- `Insert` behind its first loop, on the array alone.
unfoldable pub place {ℓ} : {T : Type ℓ} → (iterator size : ℕ) → T → List T → Run (List T)
place iterator size item es = if iterator == size then store es size item else (do
  tmp ← load es iterator
  es' ← store es iterator item
  shift_up (size - iterator) iterator tmp es')

unfoldable pub insert {ℓ} : {T : Type ℓ} → (T → T → Bool) → T → OrderedList T → Run (OrderedList T)
insert less_than item l = do
  iterator ← find_place less_than l.size 0 item l.elements
  es ← place iterator l.size item l.elements
  ok (record l { elements = es; size = u32 (l.size + 1) })

-- The loop of `Remove`, with `m_size - index` rounds left.
unfoldable pub shift_down {ℓ} : {T : Type ℓ} → (left index : ℕ) → List T → Run (List T)
shift_down zero index es = ok es
shift_down (suc left) index es = do
  next ← load es (suc index)
  es' ← store es index next
  shift_down left (suc index) es'

unfoldable pub remove {ℓ} : {T : Type ℓ} → ℕ → OrderedList T → Run (OrderedList T)
remove index l = do
  es ← shift_down (l.size - index) index l.elements
  ok (record l { elements = es; size = sub32 l.size 1 })
