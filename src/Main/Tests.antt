-- ===== src/Main/Tests.antt =====
-- A kernel with the first module at 0x200000, and one with three tasks at work.
use loris.Base.{
  ℕ, ◌+◌, ◌*◌, ◌%◌, ◌^◌, ◌≤◌, ◌<◌, ◌≡◌, refl, arith, ◌++◌, none, [], ◌∷◌, get_or, length-replicate,
  replicate, Memory, false, read32, write32, ok,
}
use loris.Descriptors.{empty_segment, empty_gate, remap_pic}
use loris.Descriptors.Gates.{LeadsTo}
use loris.Interrupts.{called, irq_handler, end_of_interrupt, no_routines, timer_phase}
use loris.Heap.Layout.{Heap}
use loris.Heap.Resize.{Pager}
use loris.Kmalloc.{Allocator}
use loris.Terminal.{Terminal}
use loris.Tasks.{Task, Tasks, put}
use loris.Tasks.Queue.{IsQueue}
use loris.Tasks.Turns.{Registers}
use loris.FileSystem.Initrd.{InitrdNode, directory_node}
use loris.Main.{keyboard, tick, Way, Kernel, Parts, start, mods_addr_of, interrupt}
use loris.Main.Start.{flat_segments, two_routines, start_lem, kernel_parts}
use loris.Main.Running.{IsRunning, Served, interrupt-Served}

abbrev no_pages : Pager
no_pages = record { State = ℕ; map_page = λ a k w p. ok p; unmap_page = λ a p. ok p }

abbrev no_heap : Heap
no_heap = record {
  index = record { elements = []; size = 0; max_size = 0 };
  start_address = 0;
  end_address = 0;
  max_address = 0;
  supervisor = false;
  readonly = false;
}

abbrev parts : Parts (Allocator no_pages)
parts = kernel_parts no_pages 1 (λ src destination a. a) no_heap (λ _. 0) 0

-- The structure at 0x9000 names the module list at 0x9100.
abbrev memory : Memory
memory = write32 (write32 (write32 (λ _. 0) 0x9018 0x9100) 0x9100 0x200000) 0x9104 0x201000

abbrev screen : Terminal
screen = record { row = 0; column = 0; color = 7; buffer = replicate 2000 0 }

abbrev task : ℕ → ℕ → Task
task id link = record {
  id = id;
  esp = 0;
  ebp = 0;
  eip = 0;
  page_directory = id * 0x1000;
  next = link;
}

abbrev tasks : Tasks
tasks = record {
  store = put 1000 (task 1 2000) (put 2000 (task 2 3000) (λ _. task 3 0));
  current_task = 3000;
  ready_queue = 1000;
  next_pid = 4;
  current_directory = 0x3000;
}

abbrev kernel : Kernel (Allocator no_pages)
kernel = record {
  machine = record {
    memory = memory;
    frames = record { nframes = 0; words = [] };
    kernel_directory = 0;
    current_directory = 0;
    cr0 = 1;
    cr3 = 0;
    platform_state = record { placement_address = 0x100000; kheap = none };
  };
  tasks = tasks;
  ticks = 0;
  segments = replicate 3 empty_segment;
  gates = [];
  routines = no_routines;
  port_writes = [];
  terminal = screen;
  initial_esp = 0;
  fs_root = none;
  ramdisk = none;
}

-- The addresses of the assembly routines, 16 bytes apart.
abbrev stub_at : ℕ → ℕ
stub_at n = (0x100000 + n * 16) % 2 ^ 32

start_lem_example :
    (k' : Kernel (Allocator no_pages)) × (start parts stub_at 0x9000 0x8000 kernel
      ≡ ok (read32 memory (read32 memory (mods_addr_of 0x9000)), k'))
    × (k'.segments ≡ flat_segments)
    × ((n : ℕ) → n < 48 → LeadsTo (get_or k'.gates n empty_gate) (stub_at n))
    × (k'.port_writes ≡ remap_pic ++ timer_phase 100)
    × (k'.machine.platform_state
        ≡ parts.set_placement_address
            (read32 memory (read32 memory (mods_addr_of 0x9000) + 4))
            kernel.machine.platform_state)
    × (irq_handler 32 k'.routines ≡ ok (called tick 32 ∷ end_of_interrupt 32))
    × (irq_handler 33 k'.routines ≡ ok (called keyboard 33 ∷ end_of_interrupt 33))
    × ((n : ℕ) → 2 ≤ n → n < 16 → irq_handler (n + 32) k'.routines ≡ ok (end_of_interrupt (n + 32)))
start_lem_example = start_lem parts stub_at (λ n. omega arith) 0x9000 0x8000 kernel refl refl

abbrev old_node : ℕ → InitrdNode
old_node i = directory_node []

abbrev working : Kernel (Allocator no_pages)
working = record kernel { routines = two_routines }

tasks-IsQueue : IsQueue tasks.store 1000 (1000 ∷ 2000 ∷ 3000 ∷ [])
unfolding IsQueue
tasks-IsQueue = (refl, omega arith, (refl, omega arith, (refl, omega arith, refl)))

abbrev running : IsRunning working
running = record {
  installed = refl;
  scheduled = record {
    first = 1000;
    others = 2000 ∷ 3000 ∷ [];
    queue = tasks-IsQueue;
    turn = 2;
    inside = omega arith;
    runs = refl;
  };
  screen = record {
    row_in = omega arith;
    column_in = omega arith;
    size = length-replicate {A = ℕ} 2000 0;
  };
}

abbrev registers : Registers
registers = record { esp = 7; ebp = 8; eip = 9 }

-- The key with the scan code 30.
interrupt-Served_example :
    (way : Way) × (k' : Kernel (Allocator no_pages)) × (interrupt 30 33 registers working
      ≡ ok (way, k'))
    × Served 30 1 registers working way k'
    × IsRunning k'
interrupt-Served_example =
    interrupt-Served 30 registers 1 working (omega arith) (omega arith) (omega arith) running
