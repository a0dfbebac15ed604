-- ===== src/Descriptors.antt =====
-- The descriptor tables of the processor: kernel/arch/i386/GlobalDescriptorTable.cpp, and the gates
-- of kernel/arch/i386/InterruptDescriptorTable.cpp.
pub mod Segments
pub mod Gates
mod Tests
use loris.Base.{
  ℕ, zero, suc, ◌+◌, ◌*◌, ◌-◌, ◌%◌, ◌^◌, bit_and, bit_or, List, [], ◌∷◌, replicate, Run, ok, ◌>>=◌,
  load, store, u8, u16, ◌>>>◌, ◌<<<◌,
}

-- `struct GlobalDescriptorTableEntry`.
pub record SegmentEntry : Type 0 where
  pub limit_low : ℕ
  pub base_low : ℕ
  pub base_mid : ℕ
  pub access : ℕ
  pub granularity : ℕ
  pub base_high : ℕ

abbrev pub gdt_num_entries : ℕ
gdt_num_entries = 3

-- What `CreateEntry` writes into the entry.
unfoldable pub segment_entry : (base limit access gran : ℕ) → SegmentEntry
segment_entry base limit access gran = record {
  limit_low = u16 (bit_and limit 0xFFFF);
  base_low = u16 (bit_and base 0xFFFF);
  base_mid = u8 (bit_and (base >>> 16) 0xFF);
  access = u8 access;
  granularity = u8 (bit_or (u8 (bit_and (limit >>> 16) 0x0F)) (bit_and gran 0xF0));
  base_high = u8 (bit_and (base >>> 24) 0xFF);
}

unfoldable pub create_entry :
    (num base limit access gran : ℕ) → List SegmentEntry → Run (List SegmentEntry)
create_entry num base limit access gran entries =
    store entries num (segment_entry base limit access gran)

-- A static table starts with zeros.
abbrev pub empty_segment : SegmentEntry
empty_segment = record {
  limit_low = 0;
  base_low = 0;
  base_mid = 0;
  access = 0;
  granularity = 0;
  base_high = 0;
}

-- `InitGDT`: the limit of the table pointer, and the table that `gdt_load_and_set` is given.
unfoldable pub init_gdt : List SegmentEntry → Run (ℕ × List SegmentEntry)
init_gdt entries = do
  null_segment ← create_entry 0 0 0 0 0 entries
  code_segment ← create_entry 1 0 0xFFFFFFFF 0x9A 0xCF null_segment
  data_segment ← create_entry 2 0 0xFFFFFFFF 0x92 0xCF code_segment
  ok (u16 (8 * gdt_num_entries - 1), data_segment)

-- `struct IDTGate`.
pub record Gate : Type 0 where
  pub handler_low : ℕ
  pub segsel : ℕ
  pub zero_byte : ℕ
  pub config : ℕ
  pub handler_high : ℕ

abbrev pub idt_num_entries : ℕ
idt_num_entries = 256

-- What `CreateGate` writes into the gate.
unfoldable pub gate : (base sel flags : ℕ) → Gate
gate base sel flags = record {
  handler_low = u16 (bit_and base 0xFFFF);
  segsel = u8 sel;
  zero_byte = 0;
  config = u8 flags;
  handler_high = u16 (bit_and (base >>> 16) 0xFFFF);
}

unfoldable pub create_gate : (num base sel flags : ℕ) → List Gate → Run (List Gate)
create_gate num base sel flags entries = store entries (u8 num) (gate base sel flags)

abbrev pub empty_gate : Gate
empty_gate = record { handler_low = 0; segsel = 0; zero_byte = 0; config = 0; handler_high = 0 }

-- `count` consecutive lines `CreateGate(num, (unsigned int)stub, 0x08, 0x8E);` from `num` on.
-- `stub num` is the address of the assembly routine `isr<num>` or `irq<num>`.
unfoldable pub create_gates : (stub : ℕ → ℕ) (count num : ℕ) → List Gate → Run (List Gate)
create_gates stub zero num entries = ok entries
create_gates stub (suc count) num entries = do
  entries' ← create_gate num (stub num) 0x08 0x8E entries
  create_gates stub count (num + 1) entries'

-- A write of a byte to an I/O port.
pub record PortWrite : Type 0 where
  pub port : ℕ
  pub value : ℕ

abbrev pub outb : ℕ → ℕ → PortWrite
outb port value = record { port = port; value = value }

unfoldable pub remap_pic : List PortWrite
remap_pic =
    outb 0x20 0x11
    ∷ outb 0xA0 0x11
    ∷ outb 0x21 0x20
    ∷ outb 0xA1 0x28
    ∷ outb 0x21 0x04
    ∷ outb 0xA1 0x02
    ∷ outb 0x21 0x01
    ∷ outb 0xA1 0x01
    ∷ outb 0x21 0x0
    ∷ outb 0xA1 0x0
    ∷ []

-- `Init_IDT`: the limit of the table pointer, the table after it, and the writes to the ports.
-- `load_idt` is called between the two groups of gates and gives the processor the table's address.
unfoldable pub init_idt : (stub : ℕ → ℕ) → Run (ℕ × List Gate × List PortWrite)
init_idt stub = do
  exceptions ← create_gates stub 32 0 (replicate idt_num_entries empty_gate)
  interrupts ← create_gates stub 16 32 exceptions
  ok (u16 (idt_num_entries * 8 - 1), interrupts, remap_pic)
