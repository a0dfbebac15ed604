-- ===== src/Interrupts/Keys.antt =====
-- The keyboard handler and the timer's divisor.
use loris.Base.{
  ℕ, ◌+◌, ◌*◌, ◌/◌, ◌^◌, ◌≤◌, ◌<◌, ◌≡◌, refl, arith, bit_and, bit_and-pow, bit_and_mask, some, none,
  [], ◌∷◌, get_or, ok, load_ok, ltb, if◌then◌else◌, u8, ◌>>>◌, Bool-cases, inl, inr,
}
use loris.Descriptors.{outb}
use loris.Interrupts.{character_map, keyboard_handler, timer_phase}

top_bit : (x : ℕ) → x < 256 → bit_and x 0x80 ≡ x / 128 * 128
top_bit x h = omega (arith, bit_and-pow 7 x)

-- For every byte from the keyboard the handler returns: a key press prints the map's character, at
-- an index inside the map, and a key release prints nothing.
pub keyboard_handler_lem :
    (scancode : ℕ)
    → scancode < 256
    → keyboard_handler scancode
      ≡ ok (if ltb scancode 128 then some (get_or character_map scancode 0) else none)
unfolding keyboard_handler
keyboard_handler_lem scancode h = elim (Bool-cases (ltb scancode 128)) [
  | inl p ↦
      let zero_bit : bit_and scancode 0x80 ≡ 0 = ground (arith, top_bit scancode h) in
      rw (zero_bit, p, load_ok character_map scancode 0 (ground arith))
  | inr p ↦
      let set_bit : bit_and scancode 0x80 ≡ 128 = ground (arith, top_bit scancode h) in
      rw (set_bit, p)
]

-- The divisor of the timer, cut into its two bytes, is the whole divisor for 19 Hz and more.
pub timer_phase_lem :
    (frequency : ℕ)
    → 19 ≤ frequency
    → (low : ℕ) × (high : ℕ) × (timer_phase frequency
        ≡ outb 0x43 0x36 ∷ outb 0x40 low ∷ outb 0x40 high ∷ [])
      × (low < 256)
      × (high < 256)
      × (high * 256 + low ≡ 1193180 / frequency)
unfolding timer_phase
timer_phase_lem frequency h =
    let divisor = 1193180 / frequency in
    let small : divisor < 2 ^ 16 = grind arith in
    (
      u8 (bit_and divisor 0xFF),
      u8 (divisor >>> 8),
      refl,
      omega arith,
      omega arith,
      omega (arith, bit_and_mask 8 divisor),
    )
