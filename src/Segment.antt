-- ===== src/Segment.antt =====
-- src/vmx/segment.rs: descriptor tables, selectors and descriptors. The selector registers, SGDT, SIDT,
-- RDMSR, the control registers and memory are a parameter, as a record of what they give.
pub mod Layout
use aleph0_virtualization_hy.Base.{
  ℕ, ◌+◌, ◌-◌, ◌*◌, ◌^◌, Bool, true, false, ◌&&◌, Option, none, some, List, ◌++◌, leb, ◌==◌, ◌!=◌,
  bit_and, bit_or, not16, u32, shr, shl32, take, drop, to_le_bytes, from_le_bytes, read_bytes,
  if◌then◌else◌,
}
use aleph0_virtualization_hy.Msr.{ia32_fs_base, ia32_gs_base}

-- A u64 and a u16.
pub record DescriptorTable : Type 0 where
  pub base : ℕ
  pub limit : ℕ

unfoldable pub to_operand : DescriptorTable → List ℕ
to_operand table = to_le_bytes 2 table.limit ++ to_le_bytes 8 table.base

unfoldable pub from_operand : List ℕ → DescriptorTable
from_operand operand = record {
  base = from_le_bytes (drop 2 operand);
  limit = from_le_bytes (take 2 operand);
}

-- What the CPU holds: the operands that SGDT and SIDT store, the selectors, the MSRs, the control
-- registers, and memory as bytes.
pub record Host : Type 0 where
  pub sgdt : List ℕ
  pub sidt : List ℕ
  pub cs : ℕ
  pub ss : ℕ
  pub ds : ℕ
  pub es : ℕ
  pub fs : ℕ
  pub gs : ℕ
  pub tr : ℕ
  pub rdmsr : ℕ → ℕ
  pub cr0 : ℕ
  pub cr3 : ℕ
  pub cr4 : ℕ
  pub memory : ℕ → ℕ

abbrev pub read_gdtr : Host → DescriptorTable
read_gdtr host = from_operand host.sgdt

abbrev pub read_idtr : Host → DescriptorTable
read_idtr host = from_operand host.sidt

abbrev pub read_fs_base : Host → ℕ
read_fs_base host = host.rdmsr ia32_fs_base

abbrev pub read_gs_base : Host → ℕ
read_gs_base host = host.rdmsr ia32_gs_base

abbrev pub selector_rpl : ℕ
selector_rpl = 3

abbrev pub selector_ti : ℕ
selector_ti = 2 ^ 2

abbrev pub selector_rpl_ti : ℕ
selector_rpl_ti = 7

-- `condition.then_some(value)`.
abbrev pub then_some : Bool → ℕ → Option ℕ
then_some condition value = if condition then some value else none

unfoldable pub descriptor_offset : DescriptorTable → ℕ → ℕ → Option ℕ
descriptor_offset gdt selector size =
    let offset = bit_and selector (not16 selector_rpl_ti) in
    let fits = leb (offset + size) (gdt.limit + 1) in
    then_some ((bit_and selector selector_ti == 0) && ((offset != 0) && fits)) offset

-- `SegmentDescriptor` is the raw u64.
abbrev pub descriptor_granularity : ℕ
descriptor_granularity = 2 ^ 55

abbrev pub access_rights_unusable : ℕ
access_rights_unusable = 2 ^ 16

unfoldable pub base : ℕ → ℕ
base descriptor =
    bit_or (bit_and (shr descriptor 16) 0xFF_FFFF) (bit_and (shr descriptor 32) 0xFF00_0000)

unfoldable pub limit : ℕ → ℕ
limit descriptor =
    let raw =
      bit_or (u32 (bit_and descriptor 0xFFFF)) (bit_and (u32 (shr descriptor 32)) 0xF_0000) in
    if bit_and descriptor descriptor_granularity != 0 then bit_or (shl32 raw 12) 0xFFF else raw

unfoldable pub access_rights : ℕ → ℕ
access_rights descriptor = bit_and (u32 (shr descriptor 40)) 0xF0FF

-- `bytes` has 16 bytes.
unfoldable pub system_descriptor_base : List ℕ → ℕ
system_descriptor_base bytes =
    let low = from_le_bytes (take 8 bytes) in
    let high = from_le_bytes (take 4 (drop 8 bytes)) in bit_or (base low) (high * 2 ^ 32)

unfoldable pub segment_base_from_gdt : Host → DescriptorTable → ℕ → ℕ
segment_base_from_gdt host gdt selector = elim (descriptor_offset gdt selector 16) [
  | none ↦ 0
  | some offset ↦ system_descriptor_base (read_bytes host.memory (gdt.base + offset) 16)
]

unfoldable pub read_descriptor : Host → DescriptorTable → ℕ → Option ℕ
read_descriptor host gdt selector = elim (descriptor_offset gdt selector 8) [
  | none ↦ none
  | some offset ↦ some (from_le_bytes (read_bytes host.memory (gdt.base + offset) 8))
]

pub record SegmentState : Type 0 where
  pub cs : ℕ
  pub ss : ℕ
  pub ds : ℕ
  pub es : ℕ
  pub fs : ℕ
  pub gs : ℕ
  pub tr : ℕ
  pub fs_base : ℕ
  pub gs_base : ℕ
  pub tr_base : ℕ
  pub gdtr : DescriptorTable
  pub idtr : DescriptorTable

unfoldable pub read_all : Host → SegmentState
read_all host =
    let gdtr = read_gdtr host in
    record {
      cs = host.cs;
      ss = host.ss;
      ds = host.ds;
      es = host.es;
      fs = host.fs;
      gs = host.gs;
      tr = host.tr;
      fs_base = read_fs_base host;
      gs_base = read_gs_base host;
      tr_base = segment_base_from_gdt host gdtr host.tr;
      gdtr = gdtr;
      idtr = read_idtr host;
    }
