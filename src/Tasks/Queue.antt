-- ===== src/Tasks/Queue.antt =====
-- The queue as a list of task addresses, and the turns that `switch_task` gives.
use native.Mathlib.Decide.{ℕ_discrete}
use loris.Base.{
  true, false, ℕ, zero, suc, ◌<◌, ◌≡◌, refl, sym, ap, ◌∙◌, ◌≢◌, arith, List, [], ◌∷◌, length,
  get_or, ◌==◌, if◌then◌else◌,
}
use loris.Tasks.{Task, Tasks, put, switch_task}

-- From `p` on the tasks of the list follow one another, and the last has no next.
unfoldable pub IsQueue : (ℕ → Task) → ℕ → List ℕ → Type 0
IsQueue s p [] = p ≡ 0
IsQueue s p (x ∷ xs) = (p ≡ x) × (x ≢ 0) × IsQueue s (s x).next xs

pub head_of : (s : ℕ → Task) (p : ℕ) (q : List ℕ) → IsQueue s p q → p ≡ get_or q 0 0
unfolding IsQueue
head_of s p [] h = h
head_of s p (x ∷ xs) (e, ne, h) = e

pub next_of :
    (s : ℕ → Task) (p : ℕ) (q : List ℕ) (i : ℕ)
    → IsQueue s p q
    → i < length q
    → (s (get_or q i 0)).next ≡ get_or q (suc i) 0
unfolding IsQueue
next_of s p [] i h lt = elim lt [ ]
next_of s p (x ∷ xs) zero (e, ne, h) lt = head_of s (s x).next xs h
next_of s p (x ∷ xs) (suc i) (e, ne, h) lt = next_of s (s x).next xs i h (omega arith)

pub nonnull_of :
    (s : ℕ → Task) (p : ℕ) (q : List ℕ) (i : ℕ) → IsQueue s p q → i < length q → get_or q i 0 ≢ 0
unfolding IsQueue
nonnull_of s p [] i h lt = elim lt [ ]
nonnull_of s p (x ∷ xs) zero (e, ne, h) lt = ne
nonnull_of s p (x ∷ xs) (suc i) (e, ne, h) lt = nonnull_of s (s x).next xs i h (omega arith)

beyond : (q : List ℕ) → get_or q (length q) 0 ≡ 0
beyond [] = refl
beyond (x ∷ xs) = beyond xs

-- Stores with the same links have the same queue.
pub IsQueue-same :
    (s s' : ℕ → Task) (p : ℕ) (q : List ℕ)
    → ((x : ℕ) → (s' x).next ≡ (s x).next)
    → IsQueue s p q
    → IsQueue s' p q
unfolding IsQueue
IsQueue-same s s' p [] same h = h
IsQueue-same s s' p (x ∷ xs) same (e, ne, h) =
    (e, ne, rw (same x) (IsQueue-same s s' (s x).next xs same h))

-- The current task saves its registers.
abbrev saved_store : ℕ → ℕ → ℕ → Tasks → ℕ → Task
saved_store esp ebp eip s =
    put s.current_task (record (s.store s.current_task) { eip = eip; esp = esp; ebp = ebp }) s.store

saved_links :
    (esp ebp eip : ℕ) (s : Tasks) (x : ℕ) → (saved_store esp ebp eip s x).next ≡ (s.store x).next
saved_links esp ebp eip s x = elim (ℕ_discrete x s.current_task) [
  | yes e ↦
      let t : (x == s.current_task) ≡ true = ground arith in
      rw t (ap (λ (k : ℕ). (s.store k).next) (sym e))
  | no ne ↦ let t : (x == s.current_task) ≡ false = ground arith in rw t
]

saved_self :
    (esp ebp eip : ℕ) (s : Tasks)
    → saved_store esp ebp eip s s.current_task
      ≡ record (s.store s.current_task) { eip = eip; esp = esp; ebp = ebp }
saved_self esp ebp eip s = let t : (s.current_task == s.current_task) ≡ true = ground arith in rw t

saved_other :
    (esp ebp eip : ℕ) (s : Tasks) (x : ℕ)
    → x ≢ s.current_task
    → saved_store esp ebp eip s x ≡ s.store x
saved_other esp ebp eip s x ne = let t : (x == s.current_task) ≡ false = ground arith in rw t

-- What a switch leaves behind while the task at place `i` of the queue runs.
pub record Switched (esp ebp eip : ℕ) (s s' : Tasks) (q : List ℕ) (i : ℕ) : Type 0 where
  pub current : s'.current_task ≡ get_or q (if suc i == length q then 0 else suc i) 0
  pub queue : IsQueue s'.store s'.ready_queue q
  pub saved :
      s'.store s.current_task ≡ record (s.store s.current_task) { eip = eip; esp = esp; ebp = ebp }
  pub others : (x : ℕ) → x ≢ s.current_task → s'.store x ≡ s.store x
  pub directory : s'.current_directory ≡ (s'.store s'.current_task).page_directory

-- While a task of the ready queue runs, `switch_task` saves the three registers in it and changes
-- no other task, hands over to the next task of the queue, from the last to the first, with that
-- task's page directory, and leaves the queue in order.
pub switch_task-Switched :
    (esp ebp eip : ℕ) (s : Tasks) (q : List ℕ) (i : ℕ)
    → IsQueue s.store s.ready_queue q
    → i < length q
    → s.current_task ≡ get_or q i 0
    → Switched esp ebp eip s (switch_task esp ebp eip s) q i
unfolding switch_task
switch_task-Switched esp ebp eip s q i queue inside runs =
    let running : (s.current_task == 0) ≡ false =
      ground (arith, nonnull_of s.store s.ready_queue q i queue inside) in
    rw running (record {
      current = turn;
      queue =
          IsQueue-same s.store (saved_store esp ebp eip s) s.ready_queue q
            (saved_links esp ebp eip s) queue;
      saved = saved_self esp ebp eip s;
      others = saved_other esp ebp eip s;
      directory = refl;
    })
  where
    next : (saved_store esp ebp eip s s.current_task).next ≡ get_or q (suc i) 0
    next =
        saved_links esp ebp eip s s.current_task
        ∙ ap (λ (k : ℕ). (s.store k).next) runs
        ∙ next_of s.store s.ready_queue q i queue inside

    turn :
        (if (saved_store esp ebp eip s s.current_task).next == 0
          then s.ready_queue
          else (saved_store esp ebp eip s s.current_task).next)
        ≡ get_or q (if suc i == length q then 0 else suc i) 0
    turn = elim (ℕ_discrete (suc i) (length q)) [
      | yes e ↦
          let last : (suc i == length q) ≡ true = ground arith in
          let at_end : get_or q (suc i) 0 ≡ 0 = ap (λ (k : ℕ). get_or q k 0) e ∙ beyond q in
          let z : (get_or q (suc i) 0 == 0) ≡ true = ground arith in
          rw (next, last, z) (head_of s.store s.ready_queue q queue)
      | no ne ↦
          let more : (suc i == length q) ≡ false = ground arith in
          let nz : (get_or q (suc i) 0 == 0) ≡ false =
            ground (arith, nonnull_of s.store s.ready_queue q (suc i) queue (omega arith)) in
          rw (next, more, nz)
    ]
