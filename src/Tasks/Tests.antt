-- ===== src/Tasks/Tests.antt =====
-- Three tasks in a queue, the last of them running, and a queue from the start.
use loris.Base.{
  ℕ, zero, suc, ◌*◌, ◌≤◌, ◌<◌, ◌≡◌, ◌≢◌, refl, sym, ap, ◌∙◌, arith, List, [], ◌∷◌, length, get_or,
  ok,
}
use loris.Tasks.{Task, Tasks, put, switch_task, initialise_tasking, fork_task, last_from}
use loris.Tasks.Queue.{IsQueue, Switched, switch_task-Switched}
use loris.Tasks.Fork.{Forked, fork_task-Forked}
use loris.Tasks.Turns.{Registers, switches, switches_reach}
use loris.Tasks.Reachable.{NewTask, Scheduled, here, next, switch, fork, Reach-Scheduled}

abbrev task : ℕ → ℕ → Task
task id link = record {
  id = id;
  esp = 0;
  ebp = 0;
  eip = 0;
  page_directory = id * 0x1000;
  next = link;
}

abbrev three_tasks : Tasks
three_tasks = record {
  store = put 1000 (task 1 2000) (put 2000 (task 2 3000) (λ _. task 3 0));
  current_task = 3000;
  ready_queue = 1000;
  next_pid = 4;
  current_directory = 0x3000;
}

three_tasks-IsQueue : IsQueue three_tasks.store 1000 (1000 ∷ 2000 ∷ 3000 ∷ [])
unfolding IsQueue
three_tasks-IsQueue = (refl, omega arith, (refl, omega arith, (refl, omega arith, refl)))

switch_run : (switch_task 7 8 9 three_tasks).current_task ≡ 1000
unfolding switch_task
switch_run = refl

switch_task-Switched_example :
    Switched 7 8 9 three_tasks (switch_task 7 8 9 three_tasks) (1000 ∷ 2000 ∷ 3000 ∷ []) 2
switch_task-Switched_example =
    switch_task-Switched 7 8 9 three_tasks (1000 ∷ 2000 ∷ 3000 ∷ []) 2 three_tasks-IsQueue
      (omega arith) refl

three_fresh : (i : ℕ) → i < 3 → get_or {A = ℕ} (1000 ∷ 2000 ∷ 3000 ∷ []) i 0 ≢ 4000
three_fresh zero h = omega arith
three_fresh (suc zero) h = omega arith
three_fresh (suc (suc zero)) h = omega arith
three_fresh (suc (suc (suc i))) h = absurd (omega arith)

fork_task-Forked_example :
    (s' : Tasks) × (fork_task 3 4000 0x9000 three_tasks ≡ ok s')
    × Forked three_tasks s' 1000 (2000 ∷ 3000 ∷ []) 4000 0x9000
fork_task-Forked_example =
    fork_task-Forked 3 4000 0x9000 1000 (2000 ∷ 3000 ∷ []) three_tasks three_tasks-IsQueue
      (omega arith) three_fresh (omega arith)

abbrev registers : Registers
registers = record { esp = 7; ebp = 8; eip = 9 }

switches_reach_example :
    (n : ℕ) × (0 < n)
    × (n ≤ 3)
    × ((rs : List Registers) → length rs ≡ n → (switches rs three_tasks).current_task ≡ 2000)
switches_reach_example =
    switches_reach three_tasks (1000 ∷ 2000 ∷ 3000 ∷ []) 2 1 three_tasks-IsQueue (omega arith) refl
      (omega arith)

-- One task is started, and it forks another.
abbrev empty_tasks : Tasks
empty_tasks = record {
  store = λ _. task 0 0;
  current_task = 0;
  ready_queue = 0;
  next_pid = 1;
  current_directory = 0x1000;
}

alone :
    (q : List ℕ)
    → IsQueue
        (initialise_tasking 1000 empty_tasks).store
        (initialise_tasking 1000 empty_tasks).ready_queue
        q
    → (length q ≤ 1) × ((i : ℕ) → i < length q → get_or q i 0 ≢ 2000)
unfolding IsQueue initialise_tasking
alone [] h = (omega arith, λ i p. elim p [ ])
alone (x ∷ []) (e, ne, h) = (omega arith, only)
  where
    only : (i : ℕ) → i < 1 → get_or (x ∷ []) i 0 ≢ 2000
    only zero p = omega arith
    only (suc i) p = absurd (omega arith)
alone (x ∷ y ∷ ys) (e, ne, (e', ne', h)) =
    absurd (ne' (sym (ap (λ (k : ℕ). (put 1000 (task 1 0) (λ _. task 0 0) k).next) e ∙ e')))

second_task : NewTask (initialise_tasking 1000 empty_tasks) 2000 2
second_task = record {
  nonnull = omega arith;
  fresh = λ q h. (alone q h).1;
  enough = λ q h. omega (arith, (alone q h).0);
}

-- The state behind the fork.
forked : (t : Tasks) × (fork_task 2 2000 0x9000 (initialise_tasking 1000 empty_tasks) ≡ ok t)
unfolding fork_task last_from initialise_tasking
forked = (_, refl)

Reach-Scheduled_example : Scheduled (switch_task 7 8 9 forked.0)
Reach-Scheduled_example =
    Reach-Scheduled 1000 empty_tasks (switch_task 7 8 9 forked.0) (omega arith)
      (next (next here (fork 2 2000 0x9000 second_task forked.1)) (switch registers refl))
