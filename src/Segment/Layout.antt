-- ===== src/Segment/Layout.antt =====
-- The layout of descriptors and of the LGDT operand in src/vmx/segment.rs, in arithmetic.
use aleph0_virtualization_hy.Base.{
  ℕ, ◌+◌, ◌-◌, ◌*◌, ◌/◌, ◌%◌, ◌^◌, ◌≤◌, ◌<◌, ◌≡◌, ◌↔◌, inl, inr, refl, ap, ap₂, sym, ◌∙◌, Bool,
  true, false, ◌&&◌, arith, some, leb, ◌==◌, ◌!=◌, bit_and, bit_or, u32, shr,
  from_le_bytes-to_le_bytes, if◌then◌else◌, Bool-cases,
}
use aleph0_virtualization_hy.Base.Bits.{
  bit_and_low, bit_and_mask, bit_and_flag, bit_and_cut, bit_or_add, bit_or_add_high,
}
use aleph0_virtualization_hy.Segment.{
  DescriptorTable, to_operand, from_operand, descriptor_offset, base, limit, access_rights,
  descriptor_granularity, selector_ti, then_some,
}

-- The operand of LGDT and LIDT reads back as the table it was made of.
pub from_operand-to_operand :
    (table : DescriptorTable)
    → table.base < 2 ^ 64
    → table.limit < 2 ^ 16
    → from_operand (to_operand table) ≡ table
unfolding from_operand to_operand
from_operand-to_operand table hb hl =
    let b = from_le_bytes-to_le_bytes 8 table.base (omega arith) in
    let l = from_le_bytes-to_le_bytes 2 table.limit (omega arith) in
    ap₂ (λ (x : ℕ) (y : ℕ). record { base = x; limit = y }) b l

base_lem : (d : ℕ) → base d ≡ d / 2 ^ 56 % 2 ^ 8 * 2 ^ 24 + d / 2 ^ 16 % 2 ^ 24
unfolding base
base_lem d =
    ap₂ bit_or (bit_and_low 24 (shr d 16)) (bit_and_mask 8 24 (shr d 32))
    ∙ bit_or_add_high 24 (d / 2 ^ 32 / 2 ^ 24 % 2 ^ 8) (d / 2 ^ 16 % 2 ^ 24) (omega arith)
    ∙ omega arith

-- The 20 bits of the limit.
abbrev pub raw_limit : ℕ → ℕ
raw_limit d = d / 2 ^ 48 % 2 ^ 4 * 2 ^ 16 + d % 2 ^ 16

raw_limit_lem :
    (d : ℕ) → bit_or (u32 (bit_and d 0xFFFF)) (bit_and (u32 (shr d 32)) 0xF_0000) ≡ raw_limit d
raw_limit_lem d =
    ap₂ (λ (x : ℕ) (y : ℕ). bit_or (u32 x) y) (bit_and_low 16 d)
      (bit_and_mask 4 16 (u32 (shr d 32)))
    ∙ ap₂ bit_or (omega arith) (omega arith)
    ∙ bit_or_add_high 16 (d / 2 ^ 48 % 2 ^ 4) (d % 2 ^ 16) (omega arith)

limit_lem :
    (d : ℕ) → limit d ≡ (if d / 2 ^ 55 % 2 == 1 then raw_limit d * 4096 + 4095 else raw_limit d)
unfolding limit
limit_lem d =
    let raw = raw_limit_lem d in
    let flag = bit_and_flag 55 d in
    elim (Bool-cases (d / 2 ^ 55 % 2 == 1)) [
      | inl set ↦
          let on : (bit_and d descriptor_granularity != 0) ≡ true = ground (arith, flag) in
          rw (on, set, raw)
            (ap (λ (x : ℕ). bit_or x 4095) (omega arith)
              ∙ bit_or_add 12 (raw_limit d) 4095 (omega arith))
      | inr clear ↦
          let off : (bit_and d descriptor_granularity != 0) ≡ false = ground (arith, flag) in
          rw (off, clear, raw) refl
    ]

access_rights_lem : (d : ℕ) → access_rights d ≡ d / 2 ^ 52 % 2 ^ 4 * 2 ^ 12 + d / 2 ^ 40 % 2 ^ 8
unfolding access_rights
access_rights_lem d =
    let a = u32 (shr d 40) in
    bit_and_cut 12 a 15 255 (omega arith)
    ∙ ap₂ (λ (x : ℕ) (y : ℕ). x * 2 ^ 12 + y) (bit_and_low 4 (a / 2 ^ 12))
        (bit_and_low 8 (a % 2 ^ 12))
    ∙ omega arith

-- What a descriptor says: its base is in bits 63:56 and 39:16; its limit in bits 51:48 and 15:0, in
-- units of 4 KiB with bit 55 set; its access rights, in the layout of the VMCS, in bits 55:52 and 47:40.
pub descriptor_lem :
    (d : ℕ)
    → (base d ≡ d / 2 ^ 56 % 2 ^ 8 * 2 ^ 24 + d / 2 ^ 16 % 2 ^ 24)
      × (limit d ≡ (if d / 2 ^ 55 % 2 == 1 then raw_limit d * 4096 + 4095 else raw_limit d))
      × (access_rights d ≡ d / 2 ^ 52 % 2 ^ 4 * 2 ^ 12 + d / 2 ^ 40 % 2 ^ 8)
descriptor_lem d = (base_lem d, limit_lem d, access_rights_lem d)

then_some-inv :
    (condition : Bool) (value offset : ℕ)
    → then_some condition value ≡ some offset
    → (condition ≡ true) × (value ≡ offset)
then_some-inv true value offset h = (refl, cc)
then_some-inv false value offset h = absurd cc

-- A selector whose descriptor can be read: it names the GDT, its index is not 0, and the descriptor
-- ends within the limit.
abbrev pub IsInside : DescriptorTable → ℕ → ℕ → ℕ → Type 0
IsInside gdt selector size offset =
    (offset ≡ selector / 8 * 8)
    × (0 < offset)
    × (offset + size ≤ gdt.limit + 1)
    × (selector / 4 % 2 ≡ 0)

-- `descriptor_offset` gives an offset exactly for a selector of the GDT whose index is not 0 and whose
-- descriptor of that size ends within the limit, and it is eight times the index.
pub descriptor_offset_lem :
    (gdt : DescriptorTable) (selector size offset : ℕ)
    → selector < 2 ^ 16
    → (descriptor_offset gdt selector size ≡ some offset) ↔ IsInside gdt selector size offset
unfolding descriptor_offset
descriptor_offset_lem gdt selector size offset small =
    let masked : bit_and selector (2 ^ 16 - 1 - 7) ≡ selector / 8 * 8 =
      bit_and_mask 13 3 selector ∙ omega arith in
    let flag = bit_and_flag 2 selector in
    let named = bit_and selector (2 ^ 16 - 1 - 7) in
    let test =
      (bit_and selector selector_ti == 0) && ((named != 0) && leb (named + size) (gdt.limit + 1)) in
    (
      λ h.
          let (holds, same) = then_some-inv test named offset h in
          (
            sym same ∙ masked,
            ground (arith, masked, holds, same),
            ground (arith, masked, holds, same),
            ground (arith, masked, holds, flag),
          ),
      λ (at, positive, within, global).
          let holds : test ≡ true = ground (arith, masked, flag) in
          let same : named ≡ offset = omega (arith, masked, at) in rw holds (ap some same),
    )
