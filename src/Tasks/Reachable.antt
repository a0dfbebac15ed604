-- ===== src/Tasks/Reachable.antt =====
-- The states of the tasks that starting, forking and switching can lead to.
use native.Mathlib.Decide.{ℕ_discrete}
use mathlib.Core.Path.{subst}
use loris.Base.{
  Bool-cases, inl, inr, ℕ, zero, suc, ◌≤◌, ◌<◌, ◌≡◌, refl, sym, ap, ◌∙◌, ◌≢◌, arith, List, [], ◌∷◌,
  ◌++◌, length, length-append, get_or, ok, ◌==◌, if◌then◌else◌,
}
use loris.Tasks.{
  Task, Tasks, put, new_task_of, initialise_tasking, fork_task, fork_return, switch_task,
}
use loris.Tasks.Queue.{IsQueue, IsQueue-same, switch_task-Switched}
use loris.Tasks.Fork.{put_other, put_self, fork_task-Forked}
use loris.Tasks.Turns.{Registers}

-- A ready queue with the running task in it.
pub record Scheduled (s : Tasks) : Type 0 where
  pub first : ℕ
  pub others : List ℕ
  pub queue : IsQueue s.store s.ready_queue (first ∷ others)
  pub turn : ℕ
  pub inside : turn < suc (length others)
  pub runs : s.current_task ≡ get_or (first ∷ others) turn 0

-- What a caller of `fork` has from `kmalloc`: an address that no task of the queue has; and fuel for
-- the search.
pub record NewTask (s : Tasks) (n fuel : ℕ) : Type 0 where
  pub nonnull : n ≢ 0
  pub fresh :
      (q : List ℕ) → IsQueue s.store s.ready_queue q → (i : ℕ) → i < length q → get_or q i 0 ≢ n
  pub enough : (q : List ℕ) → IsQueue s.store s.ready_queue q → length q ≤ fuel

pub data Step (s t : Tasks) : Type 0 where
  switch : (r : Registers) → t ≡ switch_task r.esp r.ebp r.eip s → Step s t
  fork : (fuel n directory : ℕ) → NewTask s n fuel → fork_task fuel n directory s ≡ ok t → Step s t
  return :
      (n parent : ℕ) (r : Registers) → t ≡ (fork_return n parent r.esp r.ebp r.eip s).1 → Step s t

pub data Reach (s : Tasks) : Tasks → Type 0 where
  here : Reach s s
  next : {t u : Tasks} → Reach s t → Step t u → Reach s u

initialise_tasking-Scheduled :
    (task : ℕ) (s : Tasks) → task ≢ 0 → Scheduled (initialise_tasking task s)
unfolding initialise_tasking IsQueue
initialise_tasking-Scheduled task s nonnull = record {
  first = task;
  others = [];
  queue = (
    refl,
    nonnull,
    ap (λ (t : Task). t.next) (put_self task (new_task_of s.next_pid s.current_directory) s.store),
  );
  turn = 0;
  inside = omega arith;
  runs = refl;
}

pub switch_task-Scheduled :
    (r : Registers) (s : Tasks) → Scheduled s → Scheduled (switch_task r.esp r.ebp r.eip s)
switch_task-Scheduled r s v =
    let q = v.first ∷ v.others in
    let next = switch_task-Switched r.esp r.ebp r.eip s q v.turn v.queue v.inside v.runs in
    record {
      first = v.first;
      others = v.others;
      queue = next.queue;
      turn = if suc v.turn == length q then 0 else suc v.turn;
      inside = ground (arith, v.inside);
      runs = next.current;
    }

get_or-append : (xs ys : List ℕ) (i : ℕ) → i < length xs → get_or (xs ++ ys) i 0 ≡ get_or xs i 0
get_or-append [] ys i h = elim h [ ]
get_or-append (x ∷ xs) ys zero h = refl
get_or-append (x ∷ xs) ys (suc i) h = get_or-append xs ys i (omega arith)

fork_task-Scheduled :
    (fuel n directory : ℕ) (s t : Tasks)
    → NewTask s n fuel
    → fork_task fuel n directory s ≡ ok t
    → Scheduled s
    → Scheduled t
fork_task-Scheduled fuel n directory s t new run v =
    let q = v.first ∷ v.others in
    let (s', run', f) =
      fork_task-Forked fuel n directory v.first v.others s v.queue new.nonnull (new.fresh q v.queue)
        (omega (arith, new.enough q v.queue)) in
    let same : s' ≡ t = cc in
    subst Scheduled same (record {
      first = v.first;
      others = v.others ++ n ∷ [];
      queue = f.queue;
      turn = v.turn;
      inside = omega (arith, v.inside, length-append v.others (n ∷ []));
      runs = f.running ∙ v.runs ∙ sym (get_or-append q (n ∷ []) v.turn v.inside);
    })

fork_return-Scheduled :
    (n parent esp ebp eip : ℕ) (s : Tasks)
    → Scheduled s
    → Scheduled (fork_return n parent esp ebp eip s).1
unfolding fork_return
fork_return-Scheduled n parent esp ebp eip s v = elim (Bool-cases (s.current_task == parent)) [
  | inr child ↦ rw child v
  | inl is_parent ↦
      let t = record (s.store n) { esp = esp; ebp = ebp; eip = eip } in
      rw is_parent (record {
        first = v.first;
        others = v.others;
        queue =
            IsQueue-same s.store (put n t s.store) s.ready_queue (v.first ∷ v.others) (links t refl)
              v.queue;
        turn = v.turn;
        inside = v.inside;
        runs = v.runs;
      })
]
  where
    links :
        (t : Task)
        → t.next ≡ (s.store n).next
        → (x : ℕ) → (put n t s.store x).next ≡ (s.store x).next
    links t e x = elim (ℕ_discrete x n) [
      | yes at ↦
          subst (λ (k : ℕ). (put n t s.store k).next ≡ (s.store k).next) (sym at)
            (ap (λ (u : Task). u.next) (put_self n t s.store) ∙ e)
      | no ne ↦ ap (λ (u : Task). u.next) (put_other n t s.store x ne)
    ]

Step-Scheduled : {s t : Tasks} → Step s t → Scheduled s → Scheduled t
Step-Scheduled {s} (switch r e) v = subst Scheduled (sym e) (switch_task-Scheduled r s v)
Step-Scheduled {s} {t} (fork fuel n directory new run) v =
    fork_task-Scheduled fuel n directory s t new run v
Step-Scheduled {s} (return n parent r e) v =
    subst Scheduled (sym e) (fork_return-Scheduled n parent r.esp r.ebp r.eip s v)

Reach-keeps : {s t : Tasks} → Reach s t → Scheduled s → Scheduled t
Reach-keeps here v = v
Reach-keeps (next r st) v = Step-Scheduled st (Reach-keeps r v)

-- After `initialise_tasking`, whatever sequence of switches, forks of new tasks and returns from
-- `fork` follows, the ready queue is a list of tasks linked to one another, and the running task
-- stands in it.
pub Reach-Scheduled :
    (task : ℕ) (s t : Tasks) → task ≢ 0 → Reach (initialise_tasking task s) t → Scheduled t
Reach-Scheduled task s t nonnull r = Reach-keeps r (initialise_tasking-Scheduled task s nonnull)
