-- ===== src/Main/Start.antt =====
-- `kernel_main` up to `initialise_paging`, and as a whole on the kernel's own kmalloc.
use loris.Base.{
  ℕ, ◌+◌, ◌≤◌, ◌<◌, ◌^◌, ◌≡◌, refl, ap, ◌∙◌, arith, ◌++◌, Option, none, some, List, [], ◌∷◌, length,
  get_or, get_or-replicate, get_or-set_ne, set, read32, ok, Memory,
}
use loris.Descriptors.{SegmentEntry, segment_entry, empty_gate, create_entry, init_gdt, remap_pic}
use loris.Descriptors.Gates.{LeadsTo, init_idt_lem}
use loris.Interrupts.{
  called, install_handler, irq_handler, end_of_interrupt, no_routines, timer_phase,
}
use loris.Interrupts.Dispatch.{events, irq_handler-events}
use loris.Heap.Layout.{Heap}
use loris.Heap.Resize.{Pager}
use loris.Kmalloc.{Allocator, set_placement_address}
use loris.Paging.Boot.{kernel_boot}
use loris.Main.{Handler, keyboard, tick, Kernel, Parts, timer, mods_addr_of, start}

-- The three segments of `InitGDT`.
abbrev pub flat_segments : List SegmentEntry
flat_segments =
    segment_entry 0 0 0 0
    ∷ segment_entry 0 0xFFFFFFFF 0x9A 0xCF
    ∷ segment_entry 0 0xFFFFFFFF 0x92 0xCF
    ∷ []

init_gdt_lem :
    (entries : List SegmentEntry) → length entries ≡ 3 → init_gdt entries ≡ ok (23, flat_segments)
unfolding init_gdt create_entry
init_gdt_lem [] h = absurd (omega arith)
init_gdt_lem (a ∷ []) h = absurd (omega arith)
init_gdt_lem (a ∷ b ∷ []) h = absurd (omega arith)
init_gdt_lem (a ∷ b ∷ c ∷ []) h = refl
init_gdt_lem (a ∷ b ∷ c ∷ d ∷ rest) h = absurd (omega arith)

-- The table with the handlers of the timer and of the keyboard.
abbrev pub two_routines : List (Option Handler)
two_routines = set (set no_routines 1 (some keyboard)) 0 (some tick)

pub two_routines_silent : (n : ℕ) → 2 ≤ n → get_or two_routines n none ≡ none
two_routines_silent n h =
    get_or-set_ne (set no_routines 1 (some keyboard)) 0 n (some tick) none (omega arith)
    ∙ get_or-set_ne no_routines 1 n (some keyboard) none (omega arith)
    ∙ get_or-replicate 16 n none

install_keyboard : install_handler 1 keyboard no_routines ≡ ok (set no_routines 1 (some keyboard))
unfolding install_handler
install_keyboard = refl

timer_started : timer 100 (set no_routines 1 (some keyboard)) ≡ ok (timer_phase 100, two_routines)
unfolding timer install_handler
timer_started = refl

module _ {S : Type 0} (parts : Parts S) (stub : ℕ → ℕ) (fits : (n : ℕ) → stub n < 2 ^ 32) where
  -- Before paging, with the static tables as they are at first, `kernel_main` returns from its first
  -- steps: the three segments are set; the gates 0 to 47 lead to their own stubs; the interrupt
  -- controllers are remapped before the timer is set; the placement address is the end of the first
  -- module of the multiboot structure, whose beginning is kept; the timer's interrupt 32 calls the tick
  -- handler and the keyboard's interrupt 33 the keyboard handler, once each, before the end of
  -- interrupt, and the interrupts 34 to 47 call nothing.
  pub start_lem :
      (mboot_ptr initial_stack : ℕ) (k : Kernel S)
      → length k.segments ≡ 3
      → k.routines ≡ no_routines
      → (k' : Kernel S) × (start parts stub mboot_ptr initial_stack k
          ≡ ok (read32 k.machine.memory (read32 k.machine.memory (mods_addr_of mboot_ptr)), k'))
        × (k'.segments ≡ flat_segments)
        × ((n : ℕ) → n < 48 → LeadsTo (get_or k'.gates n empty_gate) (stub n))
        × (k'.port_writes ≡ k.port_writes ++ remap_pic ++ timer_phase 100)
        × (k'.machine.platform_state
            ≡ parts.set_placement_address
                (read32 k.machine.memory (read32 k.machine.memory (mods_addr_of mboot_ptr) + 4))
                k.machine.platform_state)
        × (irq_handler 32 k'.routines ≡ ok (called tick 32 ∷ end_of_interrupt 32))
        × (irq_handler 33 k'.routines ≡ ok (called keyboard 33 ∷ end_of_interrupt 33))
        × ((n : ℕ)
            → 2 ≤ n
            → n < 16
            → irq_handler (n + 32) k'.routines ≡ ok (end_of_interrupt (n + 32)))
  unfolding start
  start_lem mboot_ptr initial_stack k three null =
      let (table, gates_run, _, leads, _) = init_idt_lem stub fits in
      let mods_addr = read32 k.machine.memory (mods_addr_of mboot_ptr) in
      (
        record k {
          initial_esp = initial_stack;
          segments = flat_segments;
          gates = table;
          routines = two_routines;
          port_writes = k.port_writes ++ remap_pic ++ timer_phase 100;
          machine = record k.machine {
            platform_state =
                parts.set_placement_address (read32 k.machine.memory (mods_addr + 4))
                  k.machine.platform_state;
          };
        },
        rw (init_gdt_lem k.segments three, gates_run, null, install_keyboard, timer_started) refl,
        refl,
        leads,
        refl,
        refl,
        irq_handler-events 0 two_routines (omega arith) refl,
        irq_handler-events 1 two_routines (omega arith) refl,
        λ n h p.
            irq_handler-events n two_routines p refl
            ∙ ap (λ r. ok (events n r)) (two_routines_silent n h),
      )

module _ (pager : Pager) (kmalloc_fuel : ℕ)
    (copy : (src destination : ℕ) → Allocator pager → Allocator pager) (old_heap : Heap)
    (m : Memory) (pages : pager.State) where
  -- The parts on the kernel's own kmalloc.
  unfoldable pub kernel_parts : Parts (Allocator pager)
  kernel_parts = record {
    boot = kernel_boot pager kmalloc_fuel copy old_heap m pages;
    set_placement_address = λ address a. set_placement_address pager address a;
  }
