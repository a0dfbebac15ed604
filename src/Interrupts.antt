-- ===== src/Interrupts.antt =====
-- Hardware interrupts: the handler table of kernel/arch/i386/InterruptDescriptorTable.cpp, and the
-- two handlers that the kernel installs, kernel/Keyboard.h and the timer phase of kernel/Timer.cpp.
pub mod Dispatch
pub mod Keys
mod Tests
use loris.Base.{
  ℕ, zero, suc, ◌+◌, ◌-◌, ◌*◌, ◌/◌, ◌%◌, ◌^◌, bit_and, Bool, Option, none, some, List, [], ◌∷◌,
  ◌++◌, replicate, Run, ok, undefined, ◌>>=◌, load, store, ltb, leb, ◌==◌, if◌then◌else◌, u8, ◌>>>◌,
  sub32,
}
use loris.Descriptors.{PortWrite, outb}

-- What an interrupt does, in order: a call of a handler with the interrupt number, a port write.
pub data Event (H : Type 0) : Type 0 where
  called : H → ℕ → Event H
  wrote : PortWrite → Event H

module _ {H : Type 0} where
  -- `irq_routines`: 16 pointers, null at the start.
  abbrev pub no_routines : List (Option H)
  no_routines = replicate 16 none

  unfoldable pub install_handler : ℕ → H → List (Option H) → Run (List (Option H))
  install_handler number handler routines = store routines number (some handler)

  unfoldable pub uninstall_handler : ℕ → List (Option H) → Run (List (Option H))
  uninstall_handler number routines = store routines number none

  -- The guard that sends the slave controller its end of interrupt, and the master's after it.
  unfoldable pub end_of_interrupt : ℕ → List (Event H)
  end_of_interrupt int_no =
      if leb 40 int_no
      then wrote (outb 0xA0 0x20) ∷ wrote (outb 0x20 0x20) ∷ []
      else wrote (outb 0x20 0x20) ∷ []

  unfoldable pub irq_handler : (int_no : ℕ) → List (Option H) → Run (List (Event H))
  irq_handler int_no routines = do
    handler ← load routines (sub32 int_no 32)
    ok (elim handler [
      | none ↦ end_of_interrupt int_no
      | some h ↦ called h int_no ∷ end_of_interrupt int_no
    ])

-- `CharacterMap`; the entries that the initialiser leaves out are 0.
abbrev pub character_map : List ℕ
character_map =
    0
    ∷ 27
    ∷ b'1'
    ∷ b'2'
    ∷ b'3'
    ∷ b'4'
    ∷ b'5'
    ∷ b'6'
    ∷ b'7'
    ∷ b'8'
    ∷ b'9'
    ∷ b'0'
    ∷ b'-'
    ∷ b'='
    ∷ 8
    ∷ 9
    ∷ b'q'
    ∷ b'w'
    ∷ b'e'
    ∷ b'r'
    ∷ b't'
    ∷ b'y'
    ∷ b'u'
    ∷ b'i'
    ∷ b'o'
    ∷ b'p'
    ∷ b'['
    ∷ b']'
    ∷ 10
    ∷ 0
    ∷ b'a'
    ∷ b's'
    ∷ b'd'
    ∷ b'f'
    ∷ b'g'
    ∷ b'h'
    ∷ b'j'
    ∷ b'k'
    ∷ b'l'
    ∷ b';'
    ∷ 39
    ∷ b'`'
    ∷ 0
    ∷ 92
    ∷ b'z'
    ∷ b'x'
    ∷ b'c'
    ∷ b'v'
    ∷ b'b'
    ∷ b'n'
    ∷ b'm'
    ∷ b','
    ∷ b'.'
    ∷ b'/'
    ∷ 0
    ∷ b'*'
    ∷ 0
    ∷ b' '
    ∷ 0
    ∷ 0
    ∷ 0
    ∷ 0
    ∷ 0
    ∷ 0
    ∷ 0
    ∷ 0
    ∷ 0
    ∷ 0
    ∷ 0
    ∷ 0
    ∷ 0
    ∷ 0
    ∷ 0
    ∷ 0
    ∷ b'-'
    ∷ 0
    ∷ 0
    ∷ 0
    ∷ b'+'
    ∷ replicate 49 0

-- What `keyboard_handler` prints when the port gives it a scan code: nothing or one character.
unfoldable pub keyboard_handler : (scancode : ℕ) → Run (Option ℕ)
keyboard_handler scancode =
    if bit_and scancode 0x80 == 0
    then (do c ← load character_map scancode; ok (some c))
    else ok none

-- `TimerPhase` for a positive frequency. `outb` takes an unsigned char, so the last value is cut.
unfoldable pub timer_phase : (frequency : ℕ) → List PortWrite
timer_phase frequency =
    let divisor = 1193180 / frequency in
    outb 0x43 0x36 ∷ outb 0x40 (u8 (bit_and divisor 0xFF)) ∷ outb 0x40 (u8 (divisor >>> 8)) ∷ []
