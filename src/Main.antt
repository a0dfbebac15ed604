-- ===== src/Main.antt =====
-- The kernel as a whole: kernel_main of kernel/kernel.cpp, the constructor of kernel/Timer.cpp, and
-- what an interrupt does to all the parts, isr_handler and irq_handler of
-- kernel/arch/i386/InterruptDescriptorTable.cpp with the two handlers that kernel_main installs.
pub mod Start
pub mod Running
pub mod Stack
mod Tests
use loris.Base.{
  ℕ, zero, suc, ◌+◌, ◌*◌, ◌++◌, Bool, true, false, Option, none, some, List, [], ◌∷◌, read32, Run,
  ok, halt, ◌>>=◌, ℤ, ◌==◌, if◌then◌else◌,
}
use loris.Descriptors.{SegmentEntry, Gate, PortWrite, init_gdt, init_idt}
use loris.Interrupts.{
  Event, called, wrote, install_handler, irq_handler, keyboard_handler, timer_phase,
}
use loris.Terminal.{Terminal}
use loris.Printf.{int, printf}
use loris.Tasks.{Task, Tasks, initialise_tasking, fork_task, fork_return, getpid, tick_handler}
use loris.Tasks.Turns.{Registers}
use loris.Paging.{Platform, Machine, clone_directory, physical_address}
use loris.Paging.Boot.{Boot, initialise_paging}
use loris.FileSystem.{Dirent}
use loris.FileSystem.Initrd.{Node, Initrd, InitrdNode, initialise_initrd}

-- The functions that `irq_routines` comes to point to.
pub data Handler : Type 0 where
  keyboard tick : Handler

-- How the code of an interrupt is left: back to what was interrupted, or, from `switch_task`, by a
-- jump with the stack and base pointer of another task.
pub data Way : Type 0 where
  returns : Way
  jumps : (eip esp ebp : ℕ) → Way

-- The globals of all parts, and the port writes so far, the first at the front.
pub record Kernel (S : Type 0) : Type 0 where
  pub machine : Machine S
  pub tasks : Tasks
  pub ticks : ℕ
  pub segments : List SegmentEntry
  pub gates : List Gate
  pub routines : List (Option Handler)
  pub port_writes : List PortWrite
  pub terminal : Terminal
  pub initial_esp : ℕ
  pub fs_root : Option Node
  pub ramdisk : Option Initrd

-- `Timer::Timer`: the writes to the timer's ports, and the handler of line 0.
unfoldable pub timer :
    (frequency : ℕ) → List (Option Handler) → Run (List PortWrite × List (Option Handler))
timer frequency routines = do
  routines' ← install_handler 0 tick routines
  ok (timer_phase frequency, routines')

-- "recieved interrupt"
abbrev pub received : List ℕ
received =
    b'r' ∷ b'e' ∷ b'c' ∷ b'i' ∷ b'e' ∷ b'v' ∷ b'e' ∷ b'd' ∷ b' ' ∷ b'i' ∷ b'n' ∷ b't' ∷ b'e' ∷ b'r'
    ∷ b'r' ∷ b'u' ∷ b'p' ∷ b't' ∷ []

-- `isr_handler`, which stops behind its message.
unfoldable pub isr_handler : Terminal → Run (ℤ × Terminal)
isr_handler t = do (written, t') ← printf 18 received [] t; halt

-- `mods_addr` of `struct multiboot`, the seventh field of four bytes.
abbrev pub mods_addr_of : (mboot_ptr : ℕ) → ℕ
mods_addr_of mboot_ptr = mboot_ptr + 24

-- Where `perform_task_switch` jumps to behind `switch_task`: the task that now runs.
abbrev pub jump_of : Tasks → Way
jump_of tasks = let task = tasks.store tasks.current_task in jumps task.eip task.esp task.ebp

module _ {S : Type 0} where
  -- The directory that `switch_task` sets, whose physical address `perform_task_switch` gives to the
  -- processor.
  unfoldable pub enter_directory : (directory : ℕ) → Machine S → Machine S
  enter_directory directory machine = record machine {
    current_directory = directory;
    cr3 = read32 machine.memory (physical_address directory);
  }

  -- A handler called by an interrupt. `scancode` is what the keyboard's port gives.
  unfoldable pub run_handler :
      (scancode : ℕ) → Registers → Handler → Kernel S → Run (Way × Kernel S)
  run_handler scancode r keyboard k = do
    printed ← keyboard_handler scancode
    elim printed [
      | none ↦ ok (returns, k)
      | some c ↦ do
        (written, t') ← printf 2 (b'%' ∷ b'c' ∷ []) (int c ∷ []) k.terminal
        ok (returns, record k { terminal = t' })
    ]
  run_handler scancode r tick k = do
    (ticks, tasks) ← tick_handler r.esp r.ebp r.eip (k.ticks, k.tasks)
    let k' = record k { ticks = ticks; tasks = tasks }
    ok (
        if k.tasks.current_task == 0 then (returns, k') else (
          jump_of tasks,
          record k' { machine = enter_directory tasks.current_directory k.machine },
        ))

  -- What stands behind a call is run where the call returns.
  unfoldable pub run_events :
      (scancode : ℕ) → Registers → List (Event Handler) → Kernel S → Run (Way × Kernel S)
  run_events scancode r [] k = ok (returns, k)
  run_events scancode r (called h int_no ∷ events) k = do
    (way, k') ← run_handler scancode r h k
    elim way [
      | returns ↦ run_events scancode r events k'
      | jumps eip esp ebp ↦ ok (jumps eip esp ebp, k')
    ]
  run_events scancode r (wrote w ∷ events) k =
      run_events scancode r events (record k { port_writes = k.port_writes ++ w ∷ [] })

  -- The interrupt `int_no`, as `irq_handler` serves it.
  unfoldable pub interrupt : (scancode int_no : ℕ) → Registers → Kernel S → Run (Way × Kernel S)
  interrupt scancode int_no r k = do
    events ← irq_handler int_no k.routines
    run_events scancode r events k

-- The paging code with its surroundings, and `SetPlacementAddress`.
pub record Parts (S : Type 0) : Type 0 where
  pub boot : Boot S
  pub set_placement_address : ℕ → S → S

module _ {S : Type 0} (parts : Parts S) (stub : ℕ → ℕ) where
  abbrev platform : Platform S
  platform = parts.boot.platform

  -- `kernel_main` up to `initialise_paging`. The result is `initrd_location`.
  unfoldable pub start : (mboot_ptr initial_stack : ℕ) → Kernel S → Run (ℕ × Kernel S)
  start mboot_ptr initial_stack k =
      let mods_addr = read32 k.machine.memory (mods_addr_of mboot_ptr) in
      let initrd_end = read32 k.machine.memory (mods_addr + 4) in
      do
        (gdt_limit, segments) ← init_gdt k.segments
        (idt_limit, gates, remapped) ← init_idt stub
        routines ← install_handler 1 keyboard k.routines
        (phased, routines') ← timer 100 routines
        ok (
          read32 k.machine.memory mods_addr,
          record k {
            initial_esp = initial_stack;
            segments = segments;
            gates = gates;
            routines = routines';
            port_writes = k.port_writes ++ remapped ++ phased;
            machine = record k.machine {
              platform_state = parts.set_placement_address initrd_end k.machine.platform_state;
            };
          },
        )

  -- `initialise_tasking` and `fork` in the first task, as they call kmalloc and the paging code. The
  -- size of a task is 24 bytes.
  unfoldable pub start_tasks : (fuel : ℕ) → Registers → Kernel S → Run (ℕ × Kernel S)
  start_tasks fuel r k = do
    (task, no_phys, rest) ← platform.kmalloc 24 false false k.machine.platform_state
    let tasks₁ =
        initialise_tasking task (record k.tasks { current_directory = k.machine.current_directory })
    (directory, machine') ←
        clone_directory platform k.machine.current_directory
          (record k.machine { platform_state = rest })
    (child, no_phys', rest') ← platform.kmalloc 24 false false machine'.platform_state
    tasks₂ ← fork_task fuel child directory tasks₁
    let (ret, tasks₃) = fork_return child task r.esp r.ebp r.eip tasks₂
    ok (ret, record k { tasks = tasks₃; machine = record machine' { platform_state = rest' } })

  -- "Hello, kernel World!\n"
  abbrev hello : List ℕ
  hello =
      b'H' ∷ b'e' ∷ b'l' ∷ b'l' ∷ b'o' ∷ b',' ∷ b' ' ∷ b'k' ∷ b'e' ∷ b'r' ∷ b'n' ∷ b'e' ∷ b'l'
      ∷ b' ' ∷ b'W' ∷ b'o' ∷ b'r' ∷ b'l' ∷ b'd' ∷ b'!' ∷ 10 ∷ []

  abbrev node_memory : (size : ℕ) → S → Run (ℕ × S)
  node_memory size a = do
    (address, no_phys, a') ← platform.kmalloc size false false a
    ok (address, a')

  -- `kernel_main` in the first task, with no interrupt in between. `rounds` bounds the identity map,
  -- `fuel` the search of `fork`; `old` and `direntry` are what stood in the memory of the ramdisk's
  -- nodes and entry.
  unfoldable pub kernel_main :
      (rounds fuel mboot_ptr initial_stack : ℕ)
      → Registers
      → (old : ℕ → InitrdNode) → Dirent
      → Kernel S
      → Run (Kernel S)
  kernel_main rounds fuel mboot_ptr initial_stack r old direntry k = do
    (initrd_location, k₁) ← start mboot_ptr initial_stack k
    machine ← initialise_paging parts.boot rounds k₁.machine
    (ret, k₂) ← start_tasks fuel r (record k₁ { machine = machine })
    (written, terminal) ← printf 21 hello [] k₂.terminal
    (fs_node, ramdisk, rest) ←
        initialise_initrd node_memory initrd_location old direntry k₂.machine.memory
          k₂.machine.platform_state
    ok (record k₂ {
      terminal = terminal;
      fs_root = some fs_node;
      ramdisk = some ramdisk;
      machine = record k₂.machine { memory = ramdisk.memory; platform_state = rest };
    })
