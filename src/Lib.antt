-- ===== src/Lib.antt =====
-- Loris is a small kernel for the i386. This library models its own logic and proves what makes it
-- correct, or where it is not.
--
-- The parts and how they meet:
-- - Frames: the allocator of physical frames, kernel/paging.cpp (kernel/PageFrameAllocator.cpp repeats
--   it). `alloc_frame` asks `first_frame` for the lowest clear bit of the bitmap, sets it and fills in
--   the page; `free_frame` goes back through `clear_frame`. Frames.Owners has the states that calls of both
--   on any pages lead to.
-- - Paging: page tables and directories, kernel/paging.cpp from switch_page_directory on. `get_page`
--   walks from an address to its page and makes the table where it is missing, `clone_table` and
--   `clone_directory` copy an address space, each new frame from Frames. Paging.Entries has the entries in
--   memory, Paging.Tables get_page, Paging.Directories and Paging.Clones the clones, Paging.Kernel the same
--   code on Kmalloc, Paging.Boot initialise_paging, Paging.Rounds and Paging.Identity its identity map,
--   Paging.Stuck its end; Paging.HeapPages the pages of the heap.
-- - OrderedList: the class template of Util/OrderedList.h, an array kept in the order of a predicate.
-- - Heap: the kernel heap, kernel/Heap.h and kernel/Heap.cpp. Its index of holes is an OrderedList of
--   header addresses; Expand and Contract map and unmap pages through the paging code. Heap.Layout has
--   the structs in memory and the members, Heap.Index the loops over the index, Heap.Resize Expand and
--   Contract, Heap.Alloc the constructor and Alloc, Heap.Free the steps of Free. Heap.Blocks and
--   Heap.Chunks say what headers and footers are in memory. The proofs of Alloc are in Heap.Fit,
--   Heap.Aligned, Heap.Overruns, Heap.Grow, Heap.GrowAlloc and Heap.GrowLast, those of Free in Heap.Merge, Heap.Join,
--   Heap.JoinLeft, Heap.JoinBoth, Heap.Shrink and Heap.FreeLast, one behind the other in Heap.RoundTrip;
--   Heap.Tiling and Heap.TilingFree look at the heap as a row of blocks and holes.
-- - Kmalloc: kernel/kmalloc.cpp, which places memory behind the kernel until the heap takes over.
-- - Strings: libc/string, on a memory of bytes.
-- - Descriptors: the segment and interrupt descriptor tables, kernel/arch/i386/GlobalDescriptorTable.cpp
--   and InterruptDescriptorTable.cpp, with the reprogramming of the interrupt controllers.
-- - Interrupts: irq_handler and the table of handlers of InterruptDescriptorTable.cpp, the keyboard
--   handler of kernel/Keyboard.h and the timer phase of kernel/Timer.cpp.
-- - Tasks: the ready queue of kernel/Task.cpp: initialise_tasking, fork before and behind read_eip,
--   switch_task up to its jump, and TickHandler of kernel/Timer.cpp. Tasks.Queue, Tasks.Fork and
--   Tasks.Turns hold the laws of one step and of a run of switches, Tasks.Reachable the steps that a
--   scheduled system takes.
-- - FileSystem: the virtual file system, kernel/FIleSystem/FileSystem.cpp. FileSystem.Initrd is the
--   initial ramdisk of initrd.cpp, whose functions fill the record `Driver`; the other modules hold the
--   proofs of mounting, finding and reading.
-- - Printf: printf, putchar and puts of libc/stdio/stdio.cpp, with the console as their output.
-- - Terminal: the text console, kernel/arch/i386/tty.cpp and vga.h.
-- - Main: the kernel as a whole, `kernel_main` of kernel/kernel.cpp with the constructor of kernel/Timer.cpp,
--   over the models of all other parts, isr_handler, and what an interrupt does to them: the handlers that
--   irq_handler calls, and the jump by which switch_task leaves the tick handler. Main.Start has the
--   proofs of the start, Main.Running those of the interrupts; Main.Stack is move_stack of kernel/Task.cpp.
-- - Base: the tests on numbers, lists, machine words, bits, memory and outcomes that they share.
--
-- How the code is modelled: a uint32_t is a native number with its wrap-around written out (add32,
-- sub32, u32, u16, u8). Memory is a function from addresses to bytes, structs in it are read and
-- written byte by byte, the low byte first. An array is a list with its real length; an access
-- outside it, a copy or a clearing (memcpy in the ramdisk, memset of the index) that leaves the
-- address space of 2 ^ 32 bytes, a function that ends without its return value, and a read of a
-- variable never written, is `undefined`, a `while (true)` is `halt` (Base.Outcome). Objects of
-- one class are records, methods take and return them.
--
-- Interfaces: `Pager` (Heap.Resize) is what the heap asks of the paging code, two operations on
-- pages that may fail: theorems in which the heap grows or contracts take the run of these
-- operations as a hypothesis, and Paging.HeapPages fills `Pager` with get_page, alloc_frame and
-- free_frame. The addresses of the interrupt stubs, which are assembly, are an argument of
-- `init_idt`. `Driver` (FileSystem) is what a file system gives its nodes; the ramdisk fills it.
-- `kmalloc` is an argument of `initialise_initrd`. `Platform` (Paging) is kmalloc and the assembly
-- routine copy_page_physical, on a state of theirs; Paging.Kernel fills it with Kmalloc. `Boot`
-- (Paging.Boot) adds the placement address and the construction of the heap; `Parts` (Main) adds
-- SetPlacementAddress, and Main.Start fills all three with Kmalloc.
--
-- Fuel: `alloc` takes fuel for its recursive calls, one is enough where a hole fits, two where the
-- heap grows. The loops of Expand and Contract have 2 ^ 20 rounds, one for each page of the
-- address space, which a loop that ends cannot exceed. `strlen`, `strcmp` and `strcpy` take fuel
-- for the bytes of the string and its zero, `printf` a round for each byte of its format, the
-- search of `fork` a round for each task in the queue. Names in the ramdisk are read up to 128
-- bytes, the array that they are copied to. The identity map takes a round for each page below the
-- placement address, the loop of move_stack 2 ^ 20 like those of Expand and Contract.
--
-- Not modelled: port access, assembly, what stands behind the endless loop of move_stack, and
-- stubs that stop the machine (abort). These are inline assembly or hold no logic. The array that
-- holds the heap's index is in memory where the constructor clears it and writes its first
-- element; later the index is kept apart from the memory of the blocks, and what kmalloc works on
-- apart from the page tables. `kernel_main` is run without an interrupt in between.
pub mod Base
pub mod Frames
pub mod OrderedList
pub mod Paging
pub mod Heap
pub mod Kmalloc
pub mod Strings
pub mod Descriptors
pub mod Interrupts
pub mod Tasks
pub mod FileSystem
pub mod Terminal
pub mod Printf
pub mod Main
