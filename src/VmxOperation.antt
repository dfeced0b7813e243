-- ===== src/VmxOperation.antt =====
-- src/vmx/mod.rs, vmxon.rs, region.rs, cpuid.rs and the writers of cr.rs: whether the CPU has VMX, and
-- the way into VMX root operation and out of it. What CPUID, RDMSR, the page allocator and the VMX
-- instructions give is a parameter.
pub mod Bracket
use aleph0_virtualization_hy.Base.{
  ℕ, ◌^◌, Bool, true, false, not, ◌&&◌, ◌||◌, Option, none, some, bit_and, bit_or, ltb, ◌==◌, ◌!=◌,
  u32, shr, if◌then◌else◌, Result, ok, err,
}
use aleph0_virtualization_hy.Instruction.{VmxFail, invalid, valid, check_rflags}
use aleph0_virtualization_hy.Msr.{
  ia32_feature_control, lock_bit, vmx_outside_smx_bit, ia32_vmx_basic, ia32_vmx_cr0_fixed0,
  ia32_vmx_cr0_fixed1, ia32_vmx_cr4_fixed0, ia32_vmx_cr4_fixed1,
}
use aleph0_virtualization_hy.Ept.Entry.{page_size}

-- `cpuid_1_ecx` is ECX of CPUID leaf 1.
unfoldable pub is_vmx_supported : ℕ → Bool
is_vmx_supported cpuid_1_ecx = bit_and (shr cpuid_1_ecx 5) 1 == 1

unfoldable pub feature_control_vmx_enabled : (ℕ → ℕ) → Bool
feature_control_vmx_enabled rdmsr =
    let value = rdmsr ia32_feature_control in
    let locked = bit_and value lock_bit != 0 in
    let vmx_enabled = bit_and value vmx_outside_smx_bit != 0 in locked && vmx_enabled

pub data VmxCapabilities : Type 0 where
  supported not_supported_by_cpu disabled_by_firmware : VmxCapabilities

unfoldable pub detect : ℕ → (ℕ → ℕ) → VmxCapabilities
detect cpuid_1_ecx rdmsr =
    if not (is_vmx_supported cpuid_1_ecx)
    then not_supported_by_cpu
    else if feature_control_vmx_enabled rdmsr
    then supported
    else disabled_by_firmware

abbrev pub revision_id_mask : ℕ
revision_id_mask = 0x7FFF_FFFF

unfoldable pub vmcs_revision_id : (ℕ → ℕ) → ℕ
vmcs_revision_id rdmsr = u32 (bit_and (rdmsr ia32_vmx_basic) revision_id_mask)

-- `VmxRegion`: its physical address.
pub record VmxRegion : Type 0 where
  pub phys_addr : ℕ

-- CR0, CR4, and memory as u32 cells.
pub record Processor : Type 0 where
  pub cr0 : ℕ
  pub cr4 : ℕ
  pub memory : ℕ → ℕ

-- What the allocator and the instructions answer. VMXON may look at all of the state.
pub record Firmware : Type 0 where
  pub rdmsr : ℕ → ℕ
  pub page : Option ℕ
  pub vmxon : ℕ → Processor → ℕ
  pub vmxoff : Processor → ℕ

abbrev pub cr4_vmxe : ℕ
cr4_vmxe = 2 ^ 13

abbrev pub write_u32 : (ℕ → ℕ) → ℕ → ℕ → ℕ → ℕ
write_u32 memory address value other = if other == address then value else memory other

pub data VmxOnError : Type 0 where
  allocation_failed unsupported_region_size vm_fail_invalid vm_fail_valid : VmxOnError

abbrev pub from_fail : VmxFail → VmxOnError
from_fail invalid = vm_fail_invalid
from_fail valid = vm_fail_valid

pub record VmxOperation : Type 0 where
  pub region : VmxRegion
  pub original_cr0 : ℕ
  pub original_cr4 : ℕ

unfoldable pub enable_vmxe : Processor → Processor
enable_vmxe p = record p { cr4 = bit_or p.cr4 cr4_vmxe }

module _ (firmware : Firmware) where
  -- `VmxRegion::allocate`.
  unfoldable pub allocate : Processor → Option VmxRegion × Processor
  allocate p = elim firmware.page [
    | none ↦ (none, p)
    | some page ↦ (
      some (record { phys_addr = page }),
      record p { memory = write_u32 p.memory page (vmcs_revision_id firmware.rdmsr) },
    )
  ]

  unfoldable pub apply_fixed_bits : Processor → Processor
  apply_fixed_bits p = record p {
    cr0 =
        bit_and (bit_or p.cr0 (firmware.rdmsr ia32_vmx_cr0_fixed0))
          (firmware.rdmsr ia32_vmx_cr0_fixed1);
    cr4 =
        bit_and (bit_or p.cr4 (firmware.rdmsr ia32_vmx_cr4_fixed0))
          (firmware.rdmsr ia32_vmx_cr4_fixed1);
  }

  -- What is done once VMXON has run with `region`, at the control registers as they were before.
  abbrev pub after_vmxon :
      Result (Unit {0}) VmxFail
      → VmxRegion
      → Processor
      → Processor
      → Result VmxOperation VmxOnError × Processor
  after_vmxon (ok done) region before p =
      (ok (record { region = region; original_cr0 = before.cr0; original_cr4 = before.cr4 }), p)
  after_vmxon (err e) region before p =
      (err (from_fail e), record p { cr0 = before.cr0; cr4 = before.cr4 })

  abbrev pub with_region : Option VmxRegion × Processor → Result VmxOperation VmxOnError × Processor
  with_region (none, p) = (err allocation_failed, p)
  with_region (some region, p) =
      let ready = apply_fixed_bits (enable_vmxe p) in
      after_vmxon (check_rflags (firmware.vmxon region.phys_addr ready)) region p ready

  unfoldable pub enter_vmx_root_operation : Processor → Result VmxOperation VmxOnError × Processor
  enter_vmx_root_operation p =
      let region_size = bit_and (shr (firmware.rdmsr ia32_vmx_basic) 32) 0x1fff in
      if (region_size == 0) || ltb page_size region_size
      then (err unsupported_region_size, p)
      else with_region (allocate p)

  -- `VmxOperation::leave`, once VMXOFF has left its RFLAGS.
  abbrev pub after_vmxoff :
      Result (Unit {0}) VmxFail → VmxOperation → Processor → Result (Unit {0}) VmxFail × Processor
  after_vmxoff (ok done) operation p =
      (ok tt, record p { cr0 = operation.original_cr0; cr4 = operation.original_cr4 })
  after_vmxoff (err e) operation p = (err e, p)

  unfoldable pub leave : VmxOperation → Processor → Result (Unit {0}) VmxFail × Processor
  leave operation p = after_vmxoff (check_rflags (firmware.vmxoff p)) operation p
