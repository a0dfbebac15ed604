-- ===== src/Descriptors/Segments.antt =====
-- What the processor reads from a segment descriptor is what `CreateEntry` was given.
use loris.Base.{
  ℕ, ◌+◌, ◌*◌, ◌/◌, ◌%◌, ◌^◌, ◌<◌, ◌≡◌, refl, arith, bit_and, bit_or, bit_and_mask, bit_or_fields,
  bit_or_comm, ◌-◌, bit_and_shift, u8, ◌>>>◌, ok, [], ◌∷◌,
}
use loris.Descriptors.{SegmentEntry, segment_entry, init_gdt, create_entry, empty_segment}

-- The fields as the i386 puts them together: a base of 32 bits, a limit of 20 bits, four flags.
abbrev pub base_of : SegmentEntry → ℕ
base_of e = e.base_low + e.base_mid * 2 ^ 16 + e.base_high * 2 ^ 24

abbrev pub limit_of : SegmentEntry → ℕ
limit_of e = e.limit_low + e.granularity % 16 * 2 ^ 16

abbrev pub flags_of : SegmentEntry → ℕ
flags_of e = e.granularity / 16

high_nibble : (x : ℕ) → x < 256 → bit_and x 0xF0 ≡ x / 16 * 16
high_nibble x h = omega (arith, bit_and_shift 4 x 15, bit_and_mask 4 (x / 2 ^ 4))

granularity_lem :
    (limit gran : ℕ)
    → gran < 256
    → u8 (bit_or (u8 (bit_and (limit >>> 16) 0x0F)) (bit_and gran 0xF0))
      ≡ gran / 16 * 16 + limit / 2 ^ 16 % 16
granularity_lem limit gran h =
    let low : u8 (bit_and (limit >>> 16) 0x0F) ≡ limit / 2 ^ 16 % 16 =
      omega (arith, bit_and_mask 4 (limit >>> 16)) in
    rw (low, high_nibble gran h, bit_or_comm (limit / 2 ^ 16 % 16) (gran / 16 * 16))
      (omega (arith, bit_or_fields 4 (gran / 16) (limit / 2 ^ 16 % 16) (omega arith)))

-- Base, access byte and flags come back as they were given, and of the limit the low 20 bits.
pub segment_entry_fields :
    (base limit access gran : ℕ)
    → base < 2 ^ 32
    → access < 256
    → gran < 256
    → let e = segment_entry base limit access gran in
      (base_of e ≡ base)
      × (limit_of e ≡ limit % 2 ^ 20)
      × (flags_of e ≡ gran / 16)
      × (e.access ≡ access)
unfolding segment_entry
segment_entry_fields base limit access gran hb ha hg =
    let g = granularity_lem limit gran hg in
    (
      omega
          (arith, bit_and_mask 16 base, bit_and_mask 8 (base >>> 16), bit_and_mask 8 (base >>> 24)),
      omega (arith, g, bit_and_mask 16 limit),
      omega (arith, g),
      omega arith,
    )

-- Three entries fit the table: `InitGDT` returns the null segment, and a code and a data segment
-- from address 0 over all 2 ^ 20 units, whatever stood in the table. The pointer's limit is the
-- offset of the table's last byte.
pub init_gdt_lem :
    (a b c : SegmentEntry)
    → (code : SegmentEntry) × (data_segment : SegmentEntry) × (init_gdt (a ∷ b ∷ c ∷ [])
        ≡ ok (23, empty_segment ∷ code ∷ data_segment ∷ []))
      × (base_of code ≡ 0)
      × (limit_of code ≡ 2 ^ 20 - 1)
      × (code.access ≡ 0x9A)
      × (flags_of code ≡ 0xC)
      × (base_of data_segment ≡ 0)
      × (limit_of data_segment ≡ 2 ^ 20 - 1)
      × (data_segment.access ≡ 0x92)
      × (flags_of data_segment ≡ 0xC)
unfolding init_gdt create_entry segment_entry
init_gdt_lem a b c = (
  segment_entry 0 0xFFFFFFFF 0x9A 0xCF,
  segment_entry 0 0xFFFFFFFF 0x92 0xCF,
  refl,
  refl,
  refl,
  refl,
  refl,
  refl,
  refl,
  refl,
  refl,
)
