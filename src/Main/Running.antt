-- ===== src/Main/Running.antt =====
-- The kernel at work: what a hardware interrupt does to all its parts.
use mathlib.Core.List.{append_assoc, append-nil}
use loris.Base.{
  ℕ, zero, suc, ◌+◌, ◌<◌, ◌≡◌, refl, sym, ap, ◌∙◌, ◌≢◌, arith, ◌++◌, none, List, [], ◌∷◌, get_or,
  ok, u8, ltb, leb, ◌==◌, if◌then◌else◌, Bool-cases, inl, inr, false, ◌^◌, ◌-◌,
}
use loris.Descriptors.{PortWrite, outb}
use loris.Interrupts.{called, end_of_interrupt, character_map}
use loris.Interrupts.Dispatch.{events, irq_handler-events}
use loris.Interrupts.Keys.{keyboard_handler_lem}
use loris.Terminal.{Terminal, write}
use loris.Terminal.Cursor.{IsTerminal}
use loris.Printf.{int, next_int}
use loris.Printf.Rendered.{rendered}
use loris.Printf.Output.{printf-write}
use loris.Tasks.{switch_task, tick_handler}
use loris.Tasks.Queue.{nonnull_of}
use loris.Tasks.Reachable.{Scheduled, switch_task-Scheduled}
use loris.Tasks.Turns.{Registers}
use loris.Main.{
  Handler, keyboard, tick, Kernel, Way, returns, jumps, jump_of, run_handler, run_events, interrupt,
  enter_directory,
}
use loris.Main.Start.{two_routines, two_routines_silent}

-- The handlers are installed, a task of the ready queue runs, and the terminal is in order.
pub record IsRunning {S : Type 0} (k : Kernel S) : Type 0 where
  pub installed : k.routines ≡ two_routines
  pub scheduled : Scheduled k.tasks
  pub screen : IsTerminal k.terminal

-- What a scan code shows: the character of a key press, nothing for a release.
abbrev pub key_text : ℕ → List ℕ
key_text scancode = if ltb scancode 128 then u8 (get_or character_map scancode 0) ∷ [] else []

-- The end of interrupt of line `n`.
abbrev pub acknowledged : ℕ → List PortWrite
acknowledged n =
    if leb 40 (n + 32) then outb 0xA0 0x20 ∷ outb 0x20 0x20 ∷ [] else outb 0x20 0x20 ∷ []

-- What the interrupt of line `n` makes of the kernel.
pub record Served {S : Type 0} (scancode n : ℕ) (r : Registers) (k : Kernel S) (way : Way)
    (k' : Kernel S) : Type 0 where
  pub leaves : way ≡ (if n == 0 then jump_of k'.tasks else returns)
  pub tasks_are : k'.tasks ≡ (if n == 0 then switch_task r.esp r.ebp r.eip k.tasks else k.tasks)
  pub ticks_are : k'.ticks ≡ (if n == 0 then k.ticks + 1 else k.ticks)
  pub shows : write (if n == 1 then key_text scancode else []) k.terminal ≡ ok k'.terminal
  pub writes_are : k'.port_writes ≡ k.port_writes ++ (if n == 0 then [] else acknowledged n)
  pub machine_is :
      k'.machine
      ≡ (if n == 0 then enter_directory k'.tasks.current_directory k.machine else k.machine)
  pub others_are : k' ≡ record k {
    tasks = k'.tasks;
    ticks = k'.ticks;
    terminal = k'.terminal;
    port_writes = k'.port_writes;
    machine = k'.machine;
  }

module _ {S : Type 0} (scancode : ℕ) (r : Registers) where
  run_end_of_interrupt :
      (n : ℕ) (k : Kernel S)
      → run_events scancode r (end_of_interrupt (n + 32)) k
        ≡ ok (returns, record k { port_writes = k.port_writes ++ acknowledged n })
  unfolding run_events end_of_interrupt
  run_end_of_interrupt n k = elim (Bool-cases (leb 40 (n + 32))) [
    | inl slave ↦ rw slave (
        ap (λ (w : List PortWrite). ok (returns, record k { port_writes = w }))
          (append_assoc k.port_writes (outb 0xA0 0x20 ∷ []) (outb 0x20 0x20 ∷ [])))
    | inr master ↦ rw master refl
  ]

  run_events-called :
      (h : Handler) (n : ℕ) (k : Kernel S) (way : Way) (k' : Kernel S)
      → run_handler scancode r h k ≡ ok (way, k')
      → run_events scancode r (called h (n + 32) ∷ end_of_interrupt (n + 32)) k ≡ elim way [
        | returns ↦ run_events scancode r (end_of_interrupt (n + 32)) k'
        | jumps eip esp ebp ↦ ok (jumps eip esp ebp, k')
      ]
  run_events-called h n k way k' e = unfold run_events in rw e refl

  run_called :
      (h : Handler) (n : ℕ) (k k' : Kernel S)
      → run_handler scancode r h k ≡ ok (returns, k')
      → run_events scancode r (called h (n + 32) ∷ end_of_interrupt (n + 32)) k
        ≡ ok (returns, record k' { port_writes = k'.port_writes ++ acknowledged n })
  run_called h n k k' e = run_events-called h n k returns k' e ∙ run_end_of_interrupt n k'

  -- The handler of the keyboard.
  run_keyboard :
      (k : Kernel S)
      → scancode < 256
      → IsTerminal k.terminal
      → (t' : Terminal) × (run_handler scancode r keyboard k
          ≡ ok (returns, record k { terminal = t' }))
        × (write (key_text scancode) k.terminal ≡ ok t')
        × IsTerminal t'
  run_keyboard k byte screen = elim (Bool-cases (ltb scancode 128)) [
    | inl press ↦
        let c = get_or character_map scancode 0 in
        let (t', run, shown, screen') =
          printf-write 2 (b'%' ∷ b'c' ∷ []) (int c ∷ []) k.terminal (u8 c ∷ []) screen
            (unfold rendered in unfold next_int in refl) (omega arith) (omega arith) in
        (
          t',
          unfold run_handler in rw (keyboard_handler_lem scancode byte, press, run) refl,
          rw press shown,
          screen',
        )
    | inr release ↦ (
      k.terminal,
      unfold run_handler in rw (keyboard_handler_lem scancode byte, release) refl,
      unfold write in rw release refl,
      screen,
    )
  ]

  interrupt-events :
      (n : ℕ) (k : Kernel S)
      → n < 16
      → k.routines ≡ two_routines
      → interrupt scancode (n + 32) r k
        ≡ run_events scancode r (events n (get_or two_routines n none)) k
  interrupt-events n k h installed =
      unfold interrupt in rw (installed, irq_handler-events n two_routines h refl) refl

  -- In a running kernel whose tick count is not yet the greatest int, and with a byte from the keyboard's
  -- port, each of the sixteen hardware
  -- interrupts is served. The timer's counts the tick
  -- and leaves by a jump to the next task, with what it saved and in its page directory, so that the
  -- end of interrupt behind the handler is not sent. The keyboard's writes the character of a pressed
  -- key to the terminal and nothing for a released one, the others call nothing; these return, with
  -- the end of interrupt to the controllers, to the slave where it is concerned. Nothing else changes,
  -- and the kernel is running again.
  pub interrupt-Served :
      (n : ℕ) (k : Kernel S)
      → n < 16
      → scancode < 256
      → k.ticks < 2 ^ 31 - 1
      → IsRunning k
      → (way : Way) × (k' : Kernel S) × (interrupt scancode (n + 32) r k ≡ ok (way, k'))
        × Served scancode n r k way k'
        × IsRunning k'
  interrupt-Served zero k h byte count v =
      let tasks = switch_task r.esp r.ebp r.eip k.tasks in
      let k' : Kernel S = record k {
        ticks = k.ticks + 1;
        tasks = tasks;
        machine = enter_directory tasks.current_directory k.machine;
      } in
      (
        jump_of tasks,
        k',
        interrupt-events 0 k h v.installed ∙ run_events-called tick 0 k (jump_of tasks) k' ticked,
        record {
          leaves = refl;
          tasks_are = refl;
          ticks_are = refl;
          shows = unfold write in refl;
          writes_are = sym (append-nil k.port_writes);
          machine_is = refl;
          others_are = refl;
        },
        record {
          installed = v.installed;
          scheduled = switch_task-Scheduled r k.tasks v.scheduled;
          screen = v.screen;
        },
      )
    where
      ticked :
          run_handler scancode r tick k
          ≡ ok (
              let tasks = switch_task r.esp r.ebp r.eip k.tasks in
              (
                jump_of tasks,
                record k {
                  ticks = k.ticks + 1;
                  tasks = tasks;
                  machine = enter_directory tasks.current_directory k.machine;
                },
              ))
      ticked =
          let q = v.scheduled.first ∷ v.scheduled.others in
          let there : k.tasks.current_task ≢ 0 = λ e.
            nonnull_of k.tasks.store k.tasks.ready_queue q v.scheduled.turn v.scheduled.queue
              v.scheduled.inside (sym v.scheduled.runs ∙ e) in
          let test : (k.tasks.current_task == 0) ≡ false = ground arith in
          let in_int : (k.ticks == 2 ^ 31 - 1) ≡ false = ground arith in
          unfold run_handler in unfold tick_handler in rw (in_int, test) refl
  interrupt-Served (suc zero) k h byte count v =
      let (t', run, shown, screen') = run_keyboard k byte v.screen in
      (
        returns,
        record k { terminal = t'; port_writes = k.port_writes ++ acknowledged 1 },
        interrupt-events 1 k h v.installed
            ∙ run_called keyboard 1 k (record k { terminal = t' }) run,
        record {
          leaves = refl;
          tasks_are = refl;
          ticks_are = refl;
          shows = shown;
          writes_are = refl;
          machine_is = refl;
          others_are = refl;
        },
        record { installed = v.installed; scheduled = v.scheduled; screen = screen' },
      )
  interrupt-Served (suc (suc n)) k h byte count v =
      let no_timer : (suc (suc n) == 0) ≡ false = ground arith in
      let no_key : (suc (suc n) == 1) ≡ false = ground arith in
      (
        returns,
        record k { port_writes = k.port_writes ++ acknowledged (suc (suc n)) },
        interrupt-events (suc (suc n)) k h v.installed
            ∙ ap (λ x. run_events scancode r (events (suc (suc n)) x) k)
                (two_routines_silent (suc (suc n)) (omega arith))
            ∙ run_end_of_interrupt (suc (suc n)) k,
        record {
          leaves = rw no_timer refl;
          tasks_are = rw no_timer refl;
          ticks_are = rw no_timer refl;
          shows = unfold write in rw no_key refl;
          writes_are = rw no_timer refl;
          machine_is = rw no_timer refl;
          others_are = refl;
        },
        record { installed = v.installed; scheduled = v.scheduled; screen = v.screen },
      )
