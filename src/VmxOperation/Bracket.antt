-- ===== src/VmxOperation/Bracket.antt =====
-- What src/vmx/vmxon.rs does to the control registers.
use aleph0_virtualization_hy.Base.{
  ℕ, ◌/◌, ◌%◌, ◌^◌, ◌≡◌, ◌⊎◌, ◌↔◌, inl, inr, refl, sym, ap, ◌∙◌, ◌||◌, none, some, arith,
  Bool-cases, Option-cases, Result-cases, subst, bit_and, bit_or, ltb, shr, ◌==◌, Result, ok, err,
}
use aleph0_virtualization_hy.Base.Bits.{bit_and_low, bit_and_flag}
use aleph0_virtualization_hy.Base.Bits.Lattice.{Includes-refl, bit_and_assoc, bit_and-bit_or_right}
use aleph0_virtualization_hy.Instruction.{VmxFail, check_rflags}
use aleph0_virtualization_hy.Msr.{
  ia32_feature_control, ia32_vmx_basic, ia32_vmx_cr0_fixed0, ia32_vmx_cr0_fixed1,
  ia32_vmx_cr4_fixed0, ia32_vmx_cr4_fixed1,
}
use aleph0_virtualization_hy.Ept.Entry.{page_size}
use aleph0_virtualization_hy.VmxOperation.{
  is_vmx_supported, feature_control_vmx_enabled, detect, supported, VmxRegion, Processor, Firmware,
  VmxOnError, VmxOperation, after_vmxon, with_region, enable_vmxe, allocate, apply_fixed_bits,
  enter_vmx_root_operation, after_vmxoff, leave, write_u32, vmcs_revision_id,
}

-- VMX is supported exactly when CPUID.1:ECX bit 5 is set, and IA32_FEATURE_CONTROL is locked with VMX
-- outside SMX enabled.
pub detect_lem :
    (ecx : ℕ) (rdmsr : ℕ → ℕ)
    → (detect ecx rdmsr ≡ supported) ↔ (
        (ecx / 2 ^ 5 % 2 ≡ 1)
        × ((rdmsr ia32_feature_control % 2 ≡ 1) × (rdmsr ia32_feature_control / 2 ^ 2 % 2 ≡ 1)))
unfolding detect is_vmx_supported feature_control_vmx_enabled
detect_lem ecx rdmsr =
    let value = rdmsr ia32_feature_control in
    let low = bit_and_low 1 (shr ecx 5) in
    let locked = bit_and_flag 0 value in
    let outside = bit_and_flag 2 value in ground (arith, low, locked, outside)

-- The bits of a register that VMX operation fixes: those of `fixed0` are set, and only those of
-- `fixed1` are.
abbrev pub IsFixed : ℕ → ℕ → ℕ → Type 0
IsFixed fixed0 fixed1 value = (bit_and value fixed0 ≡ fixed0) × (bit_and value fixed1 ≡ value)

bit_or-IsFixed :
    (value fixed0 fixed1 : ℕ)
    → bit_and fixed1 fixed0 ≡ fixed0
    → IsFixed fixed0 fixed1 (bit_and (bit_or value fixed0) fixed1)
bit_or-IsFixed value fixed0 fixed1 h =
    let all = bit_or value fixed0 in
    (
      sym (bit_and_assoc all fixed1 fixed0)
          ∙ ap (bit_and all) h
          ∙ bit_and-bit_or_right value fixed0,
      sym (bit_and_assoc all fixed1 fixed1) ∙ ap (bit_and all) (Includes-refl fixed1),
    )

-- The way in and out.
abbrev pub Entered : Firmware → Processor → Result VmxOperation VmxOnError × Processor → Type 0
Entered firmware p (ok operation, p') =
    (operation.original_cr0 ≡ p.cr0)
    × (operation.original_cr4 ≡ p.cr4)
    × IsFixed (firmware.rdmsr ia32_vmx_cr0_fixed0) (firmware.rdmsr ia32_vmx_cr0_fixed1) p'.cr0
    × IsFixed (firmware.rdmsr ia32_vmx_cr4_fixed0) (firmware.rdmsr ia32_vmx_cr4_fixed1) p'.cr4
Entered firmware p (err e, p') = (p'.cr0 ≡ p.cr0) × (p'.cr4 ≡ p.cr4)

module _ (firmware : Firmware) where
  after_vmxon-Entered :
      (r : Result (Unit {0}) VmxFail) (region : VmxRegion) (p q : Processor)
      → q.cr0 ≡ p.cr0
      → q.cr4 ≡ p.cr4
      → bit_and (firmware.rdmsr ia32_vmx_cr0_fixed1) (firmware.rdmsr ia32_vmx_cr0_fixed0)
        ≡ firmware.rdmsr ia32_vmx_cr0_fixed0
      → bit_and (firmware.rdmsr ia32_vmx_cr4_fixed1) (firmware.rdmsr ia32_vmx_cr4_fixed0)
        ≡ firmware.rdmsr ia32_vmx_cr4_fixed0
      → Entered firmware p
          (after_vmxon firmware r region q (apply_fixed_bits firmware (enable_vmxe q)))
  unfolding apply_fixed_bits enable_vmxe
  after_vmxon-Entered (ok done) region p q e0 e4 h0 h4 =
      (e0, e4, bit_or-IsFixed _ _ _ h0, bit_or-IsFixed _ _ _ h4)
  after_vmxon-Entered (err e) region p q e0 e4 h0 h4 = (e0, e4)

  allocate-cases :
      (p : Processor)
      → (allocate firmware p ≡ (none, p))
        ⊎ ((region : VmxRegion) × (q : Processor) × (allocate firmware p ≡ (some region, q))
            × (q.cr0 ≡ p.cr0)
            × (q.cr4 ≡ p.cr4))
  unfolding allocate
  allocate-cases p = elim (Option-cases firmware.page) [
    | inl e ↦ inl (rw e refl)
    | inr (page, e) ↦ inr (
      record { phys_addr = page },
      record p { memory = write_u32 p.memory page (vmcs_revision_id firmware.rdmsr) },
      rw e refl,
      refl,
      refl,
    )
  ]

  -- Where FIXED1 allows what FIXED0 requires: `enter_vmx_root_operation` that succeeds has set every
  -- bit of CR0 and CR4 that VMX operation requires and none that it forbids, and remembers the old
  -- values; when it fails, for whatever reason, CR0 and CR4 are what they were.
  pub enter_vmx_root_operation-Entered :
      (p : Processor)
      → bit_and (firmware.rdmsr ia32_vmx_cr0_fixed1) (firmware.rdmsr ia32_vmx_cr0_fixed0)
        ≡ firmware.rdmsr ia32_vmx_cr0_fixed0
      → bit_and (firmware.rdmsr ia32_vmx_cr4_fixed1) (firmware.rdmsr ia32_vmx_cr4_fixed0)
        ≡ firmware.rdmsr ia32_vmx_cr4_fixed0
      → Entered firmware p (enter_vmx_root_operation firmware p)
  unfolding enter_vmx_root_operation
  enter_vmx_root_operation-Entered p h0 h4 =
      let size = bit_and (shr (firmware.rdmsr ia32_vmx_basic) 32) 0x1fff in
      elim (Bool-cases ((size == 0) || ltb page_size size)) [
        | inl bad_size ↦ rw bad_size (refl, refl)
        | inr good_size ↦
            let goes_on : enter_vmx_root_operation firmware p
                ≡ with_region firmware (allocate firmware p) =
              rw (enter_vmx_root_operation, good_size) refl in
            elim (allocate-cases p) [
              | inl out ↦
                  subst (Entered firmware p) (sym (goes_on ∙ ap (with_region firmware) out))
                    (refl, refl)
              | inr (region, q, got, e0, e4) ↦
                  subst (Entered firmware p) (sym (goes_on ∙ ap (with_region firmware) got))
                    (after_vmxon-Entered _ region p q e0 e4 h0 h4)
            ]
      ]

  -- When VMXOFF succeeds, `leave` gives CR0 and CR4 the values that they had before the
  -- `enter_vmx_root_operation` that it ends; when VMXOFF fails, nothing changes.
  pub leave-enter_vmx_root_operation :
      (p p' q : Processor) (operation : VmxOperation)
      → bit_and (firmware.rdmsr ia32_vmx_cr0_fixed1) (firmware.rdmsr ia32_vmx_cr0_fixed0)
        ≡ firmware.rdmsr ia32_vmx_cr0_fixed0
      → bit_and (firmware.rdmsr ia32_vmx_cr4_fixed1) (firmware.rdmsr ia32_vmx_cr4_fixed0)
        ≡ firmware.rdmsr ia32_vmx_cr4_fixed0
      → enter_vmx_root_operation firmware p ≡ (ok operation, p')
      → (((leave firmware operation q).0 ≡ ok tt)
          × ((leave firmware operation q).1.cr0 ≡ p.cr0)
          × ((leave firmware operation q).1.cr4 ≡ p.cr4))
        ⊎ ((e : VmxFail) × (leave firmware operation q ≡ (err e, q)))
  unfolding leave
  leave-enter_vmx_root_operation p p' q operation h0 h4 h =
      let (old0, old4, rest0, rest4) =
        subst (Entered firmware p) h (enter_vmx_root_operation-Entered p h0 h4) in
      elim (Result-cases (check_rflags (firmware.vmxoff q))) [
        | inl (done, e) ↦
            let left = ap (λ r. after_vmxoff firmware r operation q) e in
            inl (ap (λ r. r.0) left, ap (λ r. r.1.cr0) left ∙ old0, ap (λ r. r.1.cr4) left ∙ old4)
        | inr (fail, e) ↦ inr (fail, ap (λ r. after_vmxoff firmware r operation q) e)
      ]
