-- ===== src/GuestState/Segments.antt =====
-- The segments of a guest state that `from_current` of src/vmx/guest_state.rs has built.
use aleph0_virtualization_hy.Base.{
  ℕ, ◌+◌, ◌*◌, bit_or, if◌then◌else◌, from_le_bytes, read_bytes, ◌/◌, ◌%◌, ◌^◌, ◌<◌, ◌≡◌, ◌⊎◌,
  Option, none, some, ◌==◌,
}
use aleph0_virtualization_hy.Segment
use aleph0_virtualization_hy.Segment.{
  access_rights, DescriptorTable, Host, read_gdtr, segment_base_from_gdt,
}
use aleph0_virtualization_hy.Segment.Layout.{IsInside}
use aleph0_virtualization_hy.Vmcs.Access.{Vmcs}
use aleph0_virtualization_hy.GuestState.{GuestSegment, GuestState}

-- The base that is given, or a default.
abbrev pub base_or : Option ℕ → ℕ → ℕ
base_or none default = default
base_or (some base) default = base

-- Bits 15:0 and 51:48 of a descriptor, in units of 4 KiB with bit 55 set.
abbrev pub limit_of : ℕ → ℕ
limit_of d =
    let raw = d / 2 ^ 48 % 2 ^ 4 * 2 ^ 16 + d % 2 ^ 16 in
    if d / 2 ^ 55 % 2 == 1 then raw * 4096 + 4095 else raw

-- Bits 55:52 and 47:40, in the layout of the VMCS, and bit 0 set (accessed) for code and data (bit 4).
abbrev pub access_of : ℕ → ℕ
access_of d =
    let rights = d / 2 ^ 52 % 2 ^ 4 * 2 ^ 12 + d / 2 ^ 40 % 2 ^ 8 in
    if rights / 2 ^ 4 % 2 == 1 then bit_or rights 1 else rights

-- A segment copied from the host: unusable (bit 16 of its access rights alone) with limit 0 for a null
-- selector, and otherwise what the descriptor says, which lies in the GDT. The base is the given one, if any.
abbrev pub IsCopied : Host → DescriptorTable → ℕ → Option ℕ → GuestSegment → Type 0
IsCopied host gdt selector base segment =
    (segment.selector ≡ selector)
    × (((selector / 4 ≡ 0)
          × (segment.access_rights ≡ 2 ^ 16)
          × (segment.limit ≡ 0)
          × (segment.base ≡ base_or base 0))
        ⊎ ((offset : ℕ) × (d : ℕ) × IsInside gdt selector 8 offset
            × (d ≡ from_le_bytes (read_bytes host.memory (gdt.base + offset) 8))
            × (segment.access_rights ≡ access_of d)
            × (segment.limit ≡ limit_of d)
            × (segment.base ≡ base_or base (d / 2 ^ 56 % 2 ^ 8 * 2 ^ 24 + d / 2 ^ 16 % 2 ^ 24))))

-- CS is usable with bit 13 (64-bit code), and TR is usable with 0xB (a busy 64-bit TSS) in bits 4:0.
abbrev pub IsEnterable : GuestSegment → GuestSegment → Type 0
IsEnterable cs tr =
    (cs.access_rights / 2 ^ 16 % 2 ≡ 0)
    × (cs.access_rights / 2 ^ 13 % 2 ≡ 1)
    × (tr.access_rights / 2 ^ 16 % 2 ≡ 0)
    × (tr.access_rights % 2 ^ 5 ≡ 0xB)

-- The selectors of the host, each a u16.
pub record AreSelectors (host : Host) : Type 0 where
  pub es : host.es < 2 ^ 16
  pub cs : host.cs < 2 ^ 16
  pub ss : host.ss < 2 ^ 16
  pub ds : host.ds < 2 ^ 16
  pub fs : host.fs < 2 ^ 16
  pub gs : host.gs < 2 ^ 16
  pub tr : host.tr < 2 ^ 16

abbrev pub IsCaptured : Host → ℕ → ℕ → DescriptorTable → GuestState → Type 0
IsCaptured host rip rsp idtr state =
    let gdt = read_gdtr host in
    IsEnterable state.cs state.tr
    × IsCopied host gdt host.es none state.es
    × IsCopied host gdt host.cs none state.cs
    × IsCopied host gdt host.ss none state.ss
    × IsCopied host gdt host.ds none state.ds
    × IsCopied host gdt host.fs (some (host.rdmsr 0xC000_0100)) state.fs
    × IsCopied host gdt host.gs (some (host.rdmsr 0xC000_0101)) state.gs
    × IsCopied host gdt host.tr (some (segment_base_from_gdt host gdt host.tr)) state.tr
    × (state.rip ≡ rip)
    × (state.rsp ≡ rsp)
    × (state.idtr ≡ idtr)
    × (state.gdtr ≡ gdt)
    × (state.cr0 ≡ host.cr0)
    × (state.cr3 ≡ host.cr3)
    × (state.cr4 ≡ host.cr4)
