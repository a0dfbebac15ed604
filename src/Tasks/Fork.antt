-- ===== src/Tasks/Fork.antt =====
-- `fork` puts its task at the end of the ready queue.
use loris.Base.{
  ℕ, zero, suc, ◌+◌, ◌<◌, ◌≡◌, refl, sym, ap, ◌∙◌, ◌≢◌, arith, true, false, List, [], ◌∷◌, ◌++◌,
  length, get_or, ok, ◌>>=◌, u32, ◌==◌,
}
use loris.Tasks.{Task, Tasks, put, last_from, new_task_of, fork_task}
use loris.Tasks.Queue.{IsQueue}

pub put_other : (p : ℕ) (t : Task) (s : ℕ → Task) (x : ℕ) → x ≢ p → put p t s x ≡ s x
put_other p t s x ne = let e : (x == p) ≡ false = ground arith in rw e

pub put_self : (p : ℕ) (t : Task) (s : ℕ → Task) → put p t s p ≡ t
put_self p t s = let e : (p == p) ≡ true = ground arith in rw e

-- The last task of a queue of at least one.
abbrev last : ℕ → List ℕ → ℕ
last x [] = x
last x (y ∷ ys) = last y ys

-- A task outside the queue does not matter to it.
IsQueue-put :
    (s : ℕ → Task) (p n : ℕ) (t : Task) (q : List ℕ)
    → IsQueue s p q
    → ((i : ℕ) → i < length q → get_or q i 0 ≢ n)
    → IsQueue (put n t s) p q
unfolding IsQueue
IsQueue-put s p n t [] queue fresh = queue
IsQueue-put s p n t (x ∷ xs) (e, ne, queue) fresh =
    let same = put_other n t s x (fresh 0 (omega arith)) in
    (e, ne, rw same (IsQueue-put s (s x).next n t xs queue (λ i h. fresh (suc i) (omega arith))))

last_from-last :
    (fuel : ℕ) (s : ℕ → Task) (p x : ℕ) (xs : List ℕ)
    → IsQueue s p (x ∷ xs)
    → length xs < fuel
    → last_from fuel p s ≡ ok (last x xs)
unfolding IsQueue last_from
last_from-last zero s p x xs queue enough = elim enough [ ]
last_from-last (suc fuel) s p x [] (e, ne, end) enough =
    let stop : ((s p).next == 0) ≡ true = ground (arith, ap (λ (k : ℕ). (s k).next) e) in
    rw stop (ap ok e)
last_from-last (suc fuel) s p x (y ∷ ys) (e, ne, (e', ne', queue)) enough =
    let next : (s p).next ≡ y = ap (λ (k : ℕ). (s k).next) e ∙ e' in
    let more : ((s p).next == 0) ≡ false = ground arith in
    rw more (rw next (last_from-last fuel s y y ys (refl, ne', queue) (omega arith)))

last_next : (s : ℕ → Task) (p x : ℕ) (xs : List ℕ) → IsQueue s p (x ∷ xs) → (s (last x xs)).next ≡ 0
unfolding IsQueue
last_next s p x [] (e, ne, end) = end
last_next s p x (y ∷ ys) (e, ne, queue) = last_next s (s x).next y ys queue

-- The link from the last task to the new one.
IsQueue-append :
    (s : ℕ → Task) (p n x : ℕ) (xs : List ℕ) (t : Task)
    → IsQueue s p (x ∷ xs)
    → t.next ≡ n
    → n ≢ 0
    → last x xs ≢ n
    → (s n).next ≡ 0
    → IsQueue (put (last x xs) t s) p ((x ∷ xs) ++ n ∷ [])
unfolding IsQueue
IsQueue-append s p n x [] t (e, ne, end) link nonnull other null =
    let self = put_self x t s in
    let outside = put_other x t s n (λ h. other (sym h)) in
    (e, ne, (rw self link, nonnull, rw outside null))
IsQueue-append s p n x (y ∷ ys) t (e, ne, queue) link nonnull other null =
    let end : (s (last y ys)).next ≡ 0 = last_next s (s x).next y ys queue in
    let rest = IsQueue-append s (s x).next n y ys t queue link nonnull other null in
    let before : x ≢ last y ys = λ h. queue.1 (sym queue.0 ∙ ap (λ (k : ℕ). (s k).next) h ∙ end) in
    let same = put_other (last y ys) t s x before in (e, ne, rw same rest)

last_place :
    (x : ℕ) (xs : List ℕ) (n : ℕ)
    → ((i : ℕ) → i < suc (length xs) → get_or (x ∷ xs) i 0 ≢ n)
    → last x xs ≢ n
last_place x [] n fresh = fresh 0 (omega arith)
last_place x (y ∷ ys) n fresh = last_place y ys n (λ i h. fresh (suc i) (omega arith))

-- What `fork` leaves for a ready queue `x ∷ xs` and a new task `n`.
pub record Forked (s s' : Tasks) (x : ℕ) (xs : List ℕ) (n directory : ℕ) : Type 0 where
  pub queue : IsQueue s'.store s'.ready_queue ((x ∷ xs) ++ n ∷ [])
  pub child : s'.store n ≡ new_task_of s.next_pid directory
  pub linked : s'.store (last x xs) ≡ record (s.store (last x xs)) { next = n }
  pub others : (t : ℕ) → t ≢ n → t ≢ last x xs → s'.store t ≡ s.store t
  pub pids : s'.next_pid ≡ u32 (s.next_pid + 1)
  pub running : s'.current_task ≡ s.current_task

-- `fork` of a queue with a task in it ends its search, with fuel for each task of the queue: the new
-- task, which was not in the queue, stands at its end with the next process number and the cloned
-- page directory, the other tasks keep their order, and only the link of the last one changes.
pub fork_task-Forked :
    (fuel n directory x : ℕ) (xs : List ℕ) (s : Tasks)
    → IsQueue s.store s.ready_queue (x ∷ xs)
    → n ≢ 0
    → ((i : ℕ) → i < suc (length xs) → get_or (x ∷ xs) i 0 ≢ n)
    → length xs < fuel
    → (s' : Tasks) × (fork_task fuel n directory s ≡ ok s') × Forked s s' x xs n directory
unfolding fork_task
fork_task-Forked fuel n directory x xs s queue nonnull fresh enough =
    let t = new_task_of s.next_pid directory in
    let created = put n t s.store in
    let queue' = IsQueue-put s.store s.ready_queue n t (x ∷ xs) queue fresh in
    let found = last_from-last fuel created s.ready_queue x xs queue' enough in
    let other = last_place x xs n fresh in
    let self = put_self n t s.store in
    let linked = record (created (last x xs)) { next = n } in
    let s' = record s { store = put (last x xs) linked created; next_pid = u32 (s.next_pid + 1) } in
    (
      s',
      ap
          (λ m. m >>= λ l. ok (record s {
            store = put l (record (created l) { next = n }) created;
            next_pid = u32 (s.next_pid + 1);
          }))
          found,
      record {
        queue =
            IsQueue-append created s.ready_queue n x xs linked queue' refl nonnull other
              (ap (λ (k : Task). k.next) self);
        child = put_other (last x xs) linked created n (λ h. other (sym h)) ∙ self;
        linked =
            put_self (last x xs) linked created
            ∙ ap (λ (k : Task). record k { next = n }) (put_other n t s.store (last x xs) other);
        others =
            λ k ne ne'. put_other (last x xs) linked created k ne' ∙ put_other n t s.store k ne;
        pids = refl;
        running = refl;
      },
    )
