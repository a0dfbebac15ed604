-- ===== src/Tasks.antt =====
-- The ready queue of kernel/Task.cpp: `switch_task` and the queue's part of `fork`.
pub mod Queue
pub mod Fork
pub mod Turns
pub mod Reachable
mod Tests
use loris.Base.{
  ℕ, zero, suc, ◌+◌, ◌%◌, ◌^◌, Bool, Run, ok, halt, undefined, ◌-◌, ◌>>=◌, u32, ◌==◌, if◌then◌else◌,
}

-- `struct Task` of kernel/Task.h, `next` null at 0.
pub record Task : Type 0 where
  pub id : ℕ
  pub esp : ℕ
  pub ebp : ℕ
  pub eip : ℕ
  pub page_directory : ℕ
  pub next : ℕ

-- The tasks by their addresses, and the globals.
pub record Tasks : Type 0 where
  pub store : ℕ → Task
  pub current_task : ℕ
  pub ready_queue : ℕ
  pub next_pid : ℕ
  pub current_directory : ℕ

abbrev pub put : ℕ → Task → (ℕ → Task) → ℕ → Task
put p t s x = if x == p then t else s x

-- `switch_task` up to the jump. `esp`, `ebp` and `eip` are the registers that it reads, and the
-- task that `current_task` then points to has those that it loads.
unfoldable pub switch_task : (esp ebp eip : ℕ) → Tasks → Tasks
switch_task esp ebp eip s =
    if s.current_task == 0
    then s
    else (let saved =
          put s.current_task (record (s.store s.current_task) { eip = eip; esp = esp; ebp = ebp })
            s.store in
        let next = (saved s.current_task).next in
        let current = if next == 0 then s.ready_queue else next in
        record s {
          store = saved;
          current_task = current;
          current_directory = (saved current).page_directory;
        })

-- The loop of `fork` to the end of the queue; `halt` stands for a loop that does not end.
unfoldable pub last_from : (fuel tmp_task : ℕ) → (ℕ → Task) → Run ℕ
last_from zero tmp_task s = halt
last_from (suc fuel) tmp_task s =
    let rest = last_from fuel (s tmp_task).next s in
    if (s tmp_task).next == 0 then ok tmp_task else rest

-- A new task structure, as `fork` and `initialise_tasking` fill it in.
abbrev pub new_task_of : (id directory : ℕ) → Task
new_task_of id directory = record {
  id = id;
  esp = 0;
  ebp = 0;
  eip = 0;
  page_directory = directory;
  next = 0;
}

-- `initialise_tasking`; `task` is the address from `kmalloc`.
unfoldable pub initialise_tasking : (task : ℕ) → Tasks → Tasks
initialise_tasking task s = record s {
  store = put task (new_task_of s.next_pid s.current_directory) s.store;
  current_task = task;
  ready_queue = task;
  next_pid = u32 (s.next_pid + 1);
}

unfoldable pub getpid : Tasks → ℕ
getpid s = (s.store s.current_task).id

-- `fork` up to `read_eip`: `new_task` is the address from `kmalloc`, `directory` the cloned one.
unfoldable pub fork_task : (fuel new_task directory : ℕ) → Tasks → Run Tasks
fork_task fuel new_task directory s =
    let created = put new_task (new_task_of s.next_pid directory) s.store in
    do
      last ← last_from fuel s.ready_queue created
      ok (record s {
        store = put last (record (created last) { next = new_task }) created;
        next_pid = u32 (s.next_pid + 1);
      })

-- `fork` behind `read_eip`, which the parent and, when it is switched to, the child both pass. `esp`
-- and `ebp` are the registers that it reads.
unfoldable pub fork_return : (new_task parent_task esp ebp eip : ℕ) → Tasks → ℕ × Tasks
fork_return new_task parent_task esp ebp eip s =
    if s.current_task == parent_task
    then (
      (s.store new_task).id,
      record s {
        store =
            put new_task (record (s.store new_task) { esp = esp; ebp = ebp; eip = eip }) s.store;
      },
    )
    else (0, s)

-- `Timer::TickHandler`, with the counter `ticks`, an int: the step over its greatest value is undefined.
unfoldable pub tick_handler : (esp ebp eip : ℕ) → ℕ × Tasks → Run (ℕ × Tasks)
tick_handler esp ebp eip (ticks, s) =
    if ticks == 2 ^ 31 - 1 then undefined else ok (ticks + 1, switch_task esp ebp eip s)
