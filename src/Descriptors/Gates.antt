-- ===== src/Descriptors/Gates.antt =====
-- `CreateGate` and the table that `Init_IDT` builds.
use native.Mathlib.Decide.{ℕ_discrete, dec_lt}
use mathlib.Core.Path.{subst}
use loris.Base.{
  ℕ, zero, suc, ◌+◌, ◌*◌, ◌^◌, ◌≤◌, ◌<◌, ◌≡◌, refl, ap, sym, ◌∙◌, ◌⊎◌, arith, ◌-◌, bit_and_mask, u8,
  ◌>>>◌, ok, List, set, length, get_or, get_or-set_self, get_or-set_ne, length-set, replicate,
  length-replicate, ◌>>=◌, get_or-replicate, store_ok,
}
use loris.Descriptors.{Gate, gate, create_gate, create_gates, init_idt, empty_gate, remap_pic}

-- Where the processor jumps to through a gate.
abbrev pub handler_of : Gate → ℕ
handler_of g = g.handler_low + g.handler_high * 2 ^ 16

gate_handler : (base sel flags : ℕ) → base < 2 ^ 32 → handler_of (gate base sel flags) ≡ base
unfolding gate
gate_handler base sel flags h = omega (arith, bit_and_mask 16 base, bit_and_mask 16 (base >>> 16))

-- The gate leads to the handler, in the kernel's code segment, as a present 32-bit interrupt gate.
pub record LeadsTo (g : Gate) (address : ℕ) : Type 0 where
  pub handler : handler_of g ≡ address
  pub selector : g.segsel ≡ 8
  pub config : g.config ≡ 0x8E
  pub zero_byte : g.zero_byte ≡ 0

module _ (stub : ℕ → ℕ) (addresses : (n : ℕ) → stub n < 2 ^ 32) where
  gate-LeadsTo : (n : ℕ) → LeadsTo (gate (stub n) 0x08 0x8E) (stub n)
  unfolding gate
  gate-LeadsTo n = record {
    handler = gate_handler (stub n) 0x08 0x8E (addresses n);
    selector = refl;
    config = refl;
    zero_byte = refl;
  }

  -- After the lines for `num` to `num + count`, those gates lead to their stubs, and the others
  -- are as before.
  record Created (num hi : ℕ) (before after : List Gate) : Type 0 where
    same_length : length after ≡ length before
    inside : (n : ℕ) → num ≤ n → n < hi → LeadsTo (get_or after n empty_gate) (stub n)
    outside :
        (n : ℕ) → (n < num) ⊎ (hi ≤ n) → get_or after n empty_gate ≡ get_or before n empty_gate

  create_gate-set :
      (num : ℕ) (entries : List Gate)
      → num < 256
      → num < length entries
      → create_gate num (stub num) 0x08 0x8E entries
        ≡ ok (set entries num (gate (stub num) 0x08 0x8E))
  unfolding create_gate
  create_gate-set num entries small room =
      let byte : u8 num ≡ num = omega arith in
      rw byte (store_ok entries num (gate (stub num) 0x08 0x8E) room)

  Created-cons :
      (num hi : ℕ) (entries after : List Gate)
      → num < hi
      → hi ≤ length entries
      → Created (num + 1) hi (set entries num (gate (stub num) 0x08 0x8E)) after
      → Created num hi entries after
  Created-cons num hi entries after below room c = record {
    same_length = c.same_length ∙ length-set entries num g;
    inside = λ n p q. elim (ℕ_discrete n num) [
      | yes e ↦
          subst (λ (k : ℕ). LeadsTo (get_or after k empty_gate) (stub k)) (sym e)
            (rw
              (c.outside num (omega arith), get_or-set_self entries num g empty_gate (omega arith))
              (gate-LeadsTo num))
      | no ne ↦ c.inside n (omega arith) q
    ];
    outside =
        λ n h. c.outside n (omega arith) ∙ get_or-set_ne entries num n g empty_gate (omega arith);
  }
    where
      g : Gate
      g = gate (stub num) 0x08 0x8E

  create_gates-Created :
      (count num hi : ℕ) (entries : List Gate)
      → num + count ≡ hi
      → hi ≤ 256
      → hi ≤ length entries
      → (after : List Gate) × (create_gates stub count num entries ≡ ok after)
        × Created num hi entries after
  unfolding create_gates
  create_gates-Created zero num hi entries e small room = (
    entries,
    refl,
    record { same_length = refl; inside = λ n p q. absurd (omega arith); outside = λ n h. refl },
  )
  create_gates-Created (suc count) num hi entries e small room =
      let entries' = set entries num (gate (stub num) 0x08 0x8E) in
      let (after, run, c) =
        create_gates-Created count (num + 1) hi entries' (omega arith) small
          (omega (arith, length-set entries num (gate (stub num) 0x08 0x8E))) in
      (
        after,
        ap (λ m. m >>= create_gates stub count (num + 1))
              (create_gate-set num entries (omega arith) (omega arith))
            ∙ run,
        Created-cons num hi entries after (omega arith) room c,
      )

  -- `Init_IDT` returns: each of the gates 0 to 47 leads to its own stub, the gates above are not
  -- present, and the table pointer's limit is the offset of the last byte.
  pub init_idt_lem :
      (table : List Gate) × (init_idt stub ≡ ok (256 * 8 - 1, table, remap_pic))
      × (length table ≡ 256)
      × ((n : ℕ) → n < 48 → LeadsTo (get_or table n empty_gate) (stub n))
      × ((n : ℕ) → 48 ≤ n → get_or table n empty_gate ≡ empty_gate)
  unfolding init_idt
  init_idt_lem =
      let start = replicate 256 empty_gate in
      let size : length start ≡ 256 = length-replicate 256 empty_gate in
      let (exceptions, run, c) =
        create_gates-Created 32 0 32 start (omega arith) (omega arith) (omega arith) in
      let (table, run', c') =
        create_gates-Created 16 32 48 exceptions (omega arith) (omega arith)
          (omega (arith, c.same_length)) in
      (
        table,
        ap (λ m. m >>= λ r. (create_gates stub 16 32 r >>= λ t. ok (256 * 8 - 1, t, remap_pic))) run
            ∙ ap (λ m. m >>= λ t. ok (256 * 8 - 1, t, remap_pic)) run',
        omega (arith, c.same_length, c'.same_length),
        λ n h. elim (dec_lt n 32) [
          | yes p ↦
              subst (λ (g : Gate). LeadsTo g (stub n)) (sym (c'.outside n (omega arith)))
                (c.inside n (omega arith) p)
          | no p ↦ c'.inside n (omega arith) h
        ],
        λ n h.
            c'.outside n (omega arith)
            ∙ c.outside n (omega arith)
            ∙ get_or-replicate 256 n empty_gate,
      )
