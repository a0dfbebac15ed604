-- ===== src/Interrupts/Dispatch.antt =====
-- Which handler an interrupt runs, and what the interrupt controllers are sent.
use loris.Base.{
  ℕ, ◌+◌, ◌≤◌, ◌<◌, ◌^◌, ◌≡◌, refl, sym, ap, ◌∙◌, ◌≢◌, ◌⊎◌, arith, Option, none, some, List, [],
  ◌∷◌, ◌++◌, length, get_or, set, get_or-set_self, get_or-set_ne, length-set, ok, undefined,
  load_ok, store_ok, load_undefined, ltb, if◌then◌else◌, sub32,
}
use loris.Descriptors.{outb}
use loris.Interrupts.{
  Event, called, wrote, install_handler, uninstall_handler, end_of_interrupt, irq_handler,
}

module _ {H : Type 0} where
  -- The events of an interrupt `n + 32` whose table entry is `r`.
  abbrev pub events : ℕ → Option H → List (Event H)
  events n none = end_of_interrupt (n + 32)
  events n (some h) = called h (n + 32) ∷ end_of_interrupt (n + 32)

  pub irq_handler-events :
      (n : ℕ) (routines : List (Option H))
      → n < 16
      → length routines ≡ 16
      → irq_handler (n + 32) routines ≡ ok (events n (get_or routines n none))
  unfolding irq_handler
  irq_handler-events n routines h size =
      let index : sub32 (n + 32) 32 ≡ n = omega arith in
      rw (index, load_ok routines n none (omega arith)) (go (get_or routines n none))
    where
      go :
          (r : Option H)
          → ok (elim r [
            | none ↦ end_of_interrupt (n + 32)
            | some h ↦ called h (n + 32) ∷ end_of_interrupt (n + 32)
          ])
            ≡ ok (events n r)
      go none = refl
      go (some h) = refl

  -- Installing a handler for a line makes that line's interrupt call it, once, before the end of
  -- interrupt, and leaves what the other lines do; uninstalling makes the line silent again.
  pub install_handler_lem :
      (k : ℕ) (handler : H) (routines : List (Option H))
      → k < 16
      → length routines ≡ 16
      → (installed : List (Option H)) × (removed : List (Option H)) × (install_handler k handler
            routines
          ≡ ok installed)
        × (uninstall_handler k installed ≡ ok removed)
        × (irq_handler (k + 32) installed
            ≡ ok (called handler (k + 32) ∷ end_of_interrupt (k + 32)))
        × (irq_handler (k + 32) removed ≡ ok (end_of_interrupt (k + 32)))
        × ((n : ℕ)
            → n < 16
            → n ≢ k
            → irq_handler (n + 32) installed ≡ irq_handler (n + 32) routines)
        × ((n : ℕ) → n < 16 → n ≢ k → irq_handler (n + 32) removed ≡ irq_handler (n + 32) routines)
  unfolding install_handler uninstall_handler
  install_handler_lem k handler routines small size =
      let installed = set routines k (some handler) in
      let removed = set installed k none in
      let same = length-set routines k (some handler) in
      let same' = length-set installed k none in
      (
        installed,
        removed,
        store_ok routines k (some handler) (omega arith),
        store_ok installed k none (omega arith),
        irq_handler-events k installed small (omega arith)
            ∙ ap (λ r. ok (events k r))
                (get_or-set_self routines k (some handler) none (omega arith)),
        irq_handler-events k removed small (omega arith)
            ∙ ap (λ r. ok (events k r)) (get_or-set_self installed k none none (omega arith)),
        λ n p ne.
            irq_handler-events n installed p (omega arith)
            ∙ ap (λ r. ok (events n r))
                (get_or-set_ne routines k n (some handler) none (λ e. ne (sym e)))
            ∙ sym (irq_handler-events n routines p size),
        λ n p ne.
            irq_handler-events n removed p (omega arith)
            ∙ ap (λ r. ok (events n r)) (get_or-set_ne installed k n none none (λ e. ne (sym e)))
            ∙ ap (λ r. ok (events n r))
                (get_or-set_ne routines k n (some handler) none (λ e. ne (sym e)))
            ∙ sym (irq_handler-events n routines p size),
      )

  -- Every interrupt ends with the master's end of interrupt; the slave is told exactly for the
  -- lines 8 to 15, and before the master.
  pub end_of_interrupt_lem :
      (n : ℕ)
      → end_of_interrupt {H = H} (n + 32)
        ≡ (if ltb n 8 then [] else wrote (outb 0xA0 0x20) ∷ []) ++ wrote (outb 0x20 0x20) ∷ []
  unfolding end_of_interrupt
  end_of_interrupt_lem n = ground arith

  -- An interrupt number outside 32 to 47 reads outside the table.
  pub irq_handler_undefined :
      (int_no : ℕ) (routines : List (Option H))
      → length routines ≡ 16
      → int_no < 2 ^ 32
      → (int_no < 32) ⊎ (48 ≤ int_no)
      → irq_handler int_no routines ≡ undefined
  unfolding irq_handler
  irq_handler_undefined int_no routines size w h =
      rw (load_undefined routines (sub32 int_no 32) (omega arith))
