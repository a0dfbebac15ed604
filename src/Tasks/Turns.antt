-- ===== src/Tasks/Turns.antt =====
-- The turns that the tasks of a ready queue get, switch after switch.
use mathlib.Core.Path.{subst}
use loris.Base.{
  ℕ, zero, suc, ◌+◌, ◌-◌, ◌≤◌, ◌<◌, ◌≡◌, refl, sym, ap, ◌∙◌, ◌≢◌, arith, List, [], ◌∷◌, length,
  get_or, drop, ltb, ◌==◌, if◌then◌else◌,
}
use loris.Tasks.{Task, Tasks, switch_task}
use loris.Tasks.Queue.{IsQueue, switch_task-Switched}

-- The registers that a call of `switch_task` reads.
pub record Registers : Type 0 where
  pub esp : ℕ
  pub ebp : ℕ
  pub eip : ℕ

-- One call of `switch_task` behind the other.
unfoldable pub switches : List Registers → Tasks → Tasks
switches [] s = s
switches (r ∷ rs) s = switches rs (switch_task r.esp r.ebp r.eip s)

-- `n` places behind place `i`, at most once round a queue of `len`.
abbrev pub place : (i n len : ℕ) → ℕ
place i n len = if ltb (i + n) len then i + n else i + n - len

-- The queue from a task on has one length.
length_unique :
    (s : ℕ → Task) (p : ℕ) (q q' : List ℕ) → IsQueue s p q → IsQueue s p q' → length q ≡ length q'
unfolding IsQueue
length_unique s p [] [] h h' = refl
length_unique s p [] (y ∷ ys) h (e, ne, h') = absurd (ne (sym e ∙ h))
length_unique s p (x ∷ xs) [] (e, ne, h) h' = absurd (ne (sym e ∙ h'))
length_unique s p (x ∷ xs) (y ∷ ys) (e, ne, h) (e', ne', h') = ap suc (
    length_unique s (s x).next xs ys h (subst (λ (k : ℕ). IsQueue s (s k).next ys) (sym e' ∙ e) h'))

from_place :
    (s : ℕ → Task) (p : ℕ) (q : List ℕ) (i : ℕ)
    → IsQueue s p q
    → i < length q
    → IsQueue s (get_or q i 0) (drop i q) × (length (drop i q) + i ≡ length q)
unfolding IsQueue
from_place s p [] i h lt = elim lt [ ]
from_place s p (x ∷ xs) zero (e, ne, h) lt = ((refl, ne, h), omega arith)
from_place s p (x ∷ xs) (suc i) (e, ne, h) lt =
    let (rest, count) = from_place s (s x).next xs i h (omega arith) in (rest, omega (arith, count))

-- No task stands in the queue twice.
place_injective :
    (s : ℕ → Task) (p : ℕ) (q : List ℕ) (i j : ℕ)
    → IsQueue s p q
    → i < length q
    → j < length q
    → get_or q i 0 ≡ get_or q j 0
    → i ≡ j
place_injective s p q i j h lt lt' e =
    let (from, count) = from_place s p q i h lt in
    let (from', count') = from_place s p q j h lt' in
    let same =
      length_unique s (get_or q j 0) (drop i q) (drop j q)
        (subst (λ (k : ℕ). IsQueue s k (drop i q)) e from) from' in
    omega (arith, count, count', same)

switches_current :
    (rs : List Registers) (s : Tasks) (q : List ℕ) (i : ℕ)
    → IsQueue s.store s.ready_queue q
    → i < length q
    → s.current_task ≡ get_or q i 0
    → length rs ≤ length q
    → (switches rs s).current_task ≡ get_or q (place i (length rs) (length q)) 0
unfolding switches
switches_current [] s q i queue inside runs few =
    let here : place i 0 (length q) ≡ i = ground arith in
    runs ∙ ap (λ (k : ℕ). get_or q k 0) (sym here)
switches_current (r ∷ rs) s q i queue inside runs few =
    let next = switch_task-Switched r.esp r.ebp r.eip s q i queue inside runs in
    let i' = if suc i == length q then 0 else suc i in
    let step : place i' (length rs) (length q) ≡ place i (suc (length rs)) (length q) =
      ground arith in
    switches_current rs (switch_task r.esp r.ebp r.eip s) q i' next.queue (ground arith)
      next.current (omega arith)
    ∙ ap (λ (k : ℕ). get_or q k 0) step

-- A task that does not run during the switches keeps what it has saved.
switches_keep :
    (rs : List Registers) (s : Tasks) (q : List ℕ) (i j d : ℕ)
    → IsQueue s.store s.ready_queue q
    → i < length q
    → s.current_task ≡ get_or q i 0
    → d < length q
    → j ≡ place i d (length q)
    → length rs ≤ d
    → (switches rs s).store (get_or q j 0) ≡ s.store (get_or q j 0)
unfolding switches
switches_keep [] s q i j d queue inside runs near at few = refl
switches_keep (r ∷ rs) s q i j d queue inside runs near at few =
    let next = switch_task-Switched r.esp r.ebp r.eip s q i queue inside runs in
    let i' = if suc i == length q then 0 else suc i in
    let other : get_or q j 0 ≢ s.current_task = λ e. absurd (
      ground (
        arith,
        place_injective s.store s.ready_queue q j i queue (ground arith) inside (e ∙ runs),
      )) in
    switches_keep rs (switch_task r.esp r.ebp r.eip s) q i' j (d - 1) next.queue (ground arith)
      next.current (omega arith) (ground arith) (omega arith)
    ∙ next.others (get_or q j 0) other

-- `current_task` comes round to every task of the ready queue: where it points to a task of the queue,
-- for each place `j` there is a number of calls of `switch_task`, at most one for each task, behind
-- which it points to the task at `j`, whatever registers the calls read and save. What a task does when
-- it is jumped to is not part of it.
pub switches_reach :
    (s : Tasks) (q : List ℕ) (i j : ℕ)
    → IsQueue s.store s.ready_queue q
    → i < length q
    → s.current_task ≡ get_or q i 0
    → j < length q
    → (n : ℕ) × (0 < n)
      × (n ≤ length q)
      × ((rs : List Registers) → length rs ≡ n → (switches rs s).current_task ≡ get_or q j 0)
switches_reach s q i j queue inside runs wanted =
    let n = if ltb i j then j - i else j + length q - i in
    (
      n,
      ground arith,
      ground arith,
      λ rs count.
          let at : place i (length rs) (length q) ≡ j = ground arith in
          switches_current rs s q i queue inside runs (ground arith)
          ∙ ap (λ (k : ℕ). get_or q k 0) at,
    )

-- Once round the queue, a task runs again and has the registers that it saved when it was switched
-- away, whatever registers the others save in between.
pub switches_return :
    (r : Registers) (rs : List Registers) (s : Tasks) (q : List ℕ) (i : ℕ)
    → IsQueue s.store s.ready_queue q
    → i < length q
    → s.current_task ≡ get_or q i 0
    → suc (length rs) ≡ length q
    → ((switches (r ∷ rs) s).current_task ≡ s.current_task)
      × ((switches (r ∷ rs) s).store s.current_task
          ≡ record (s.store s.current_task) { eip = r.eip; esp = r.esp; ebp = r.ebp })
unfolding switches
switches_return r rs s q i queue inside runs whole =
    let next = switch_task-Switched r.esp r.ebp r.eip s q i queue inside runs in
    let i' = if suc i == length q then 0 else suc i in
    let s' = switch_task r.esp r.ebp r.eip s in
    let at : place i (suc (length rs)) (length q) ≡ i = ground arith in
    let kept =
      switches_keep rs s' q i' i (length rs) next.queue (ground arith) next.current (omega arith)
        (ground arith) (omega arith) in
    (
      switches_current (r ∷ rs) s q i queue inside runs (omega arith)
          ∙ ap (λ (k : ℕ). get_or q k 0) at
          ∙ sym runs,
      ap (λ (k : ℕ). (switches rs s').store k) runs
          ∙ kept
          ∙ ap (λ (k : ℕ). s'.store k) (sym runs)
          ∙ next.saved,
    )
