-- ===== src/BringUp/HandedBack.antt =====
-- What src/bring_up/teardown.rs gives back to the firmware, whatever fails.
use aleph0_virtualization_hy.Base.{
  ◌≡◌, ◌⊎◌, inl, inr, refl, Bool, true, false, Bool-cases, Option, arith, Result, ok, err,
}
use aleph0_virtualization_hy.Base.Bits.Lattice.{bit_and-bit_or_right}
use aleph0_virtualization_hy.Instruction.{VmxFail, check_rflags}
use aleph0_virtualization_hy.Segment.{DescriptorTable, to_operand}
use aleph0_virtualization_hy.VmxOperation.{VmxRegion, VmxOperation, after_vmxoff, leave}
use aleph0_virtualization_hy.BringUp.Error.{TeardownError}
use aleph0_virtualization_hy.BringUp.Machine.{
  Machine, Environment, rflags_if, interrupts_enabled, enable_interrupts, load_gdtr, load_idtr,
  boot_services,
}
use aleph0_virtualization_hy.BringUp.Teardown.{
  FirmwareState, also, firmware, processor, after_leave, hand_back, teardown,
}

-- Out of VMX operation, with the control registers from before it.
abbrev pub HasLeft : VmxOperation → Machine → Type 0
HasLeft operation m =
    (m.in_vmx ≡ false)
    × (m.host.cr0 ≡ operation.original_cr0)
    × (m.host.cr4 ≡ operation.original_cr4)

-- The machine as the firmware had it; if it has not left VMX operation, `failure` holds.
abbrev pub IsHandedBack : FirmwareState → VmxOperation → Type 0 → Machine → Type 0
IsHandedBack state operation failure m =
    (m.host.sgdt ≡ to_operand state.gdtr)
    × (m.host.sidt ≡ to_operand state.idtr)
    × (m.phase ≡ boot_services)
    × ((state.interrupts_enabled ≡ false) ⊎ (interrupts_enabled m ≡ true))
    × (HasLeft operation m ⊎ failure)

abbrev pub IsFailure : {A E : Type 0} → Result A E → Type 0
IsFailure {A} {E} r = (e : E) × (r ≡ err e)

also-IsFailure : (r : Result (Unit {0}) TeardownError) (e : TeardownError) → IsFailure (also r e)
also-IsFailure (ok nothing) e = (e, refl)
also-IsFailure (err first) e = (first, refl)

module _ (env : Environment) where
  -- The machine between `leave` and the interrupts.
  hand_back-IsHandedBack :
      (gdtr idtr : DescriptorTable) (on : Bool) (operation : VmxOperation)
      (r : Result (Unit {0}) TeardownError) (m : Machine)
      → m.host.sgdt ≡ to_operand gdtr
      → m.host.sidt ≡ to_operand idtr
      → (HasLeft operation m ⊎ IsFailure r)
      → let state : FirmwareState = record { gdtr = gdtr; idtr = idtr; interrupts_enabled = on } in
        IsHandedBack state operation
          (IsFailure (hand_back env state (r, m)).0)
          (hand_back env state (r, m)).1
  unfolding enable_interrupts interrupts_enabled
  hand_back-IsHandedBack gdtr idtr true operation r m g i left =
      (g, i, refl, inr (let e = bit_and-bit_or_right m.rflags rflags_if in ground (arith, e)), left)
  hand_back-IsHandedBack gdtr idtr false operation r m g i left = (g, i, refl, inl refl, left)

  after_leave-IsHandedBack :
      (state : FirmwareState) (operation : VmxOperation) (r : Result (Unit {0}) TeardownError)
      (m : Machine) (flags : Result (Unit {0}) VmxFail)
      → m.host.sgdt ≡ to_operand state.gdtr
      → m.host.sidt ≡ to_operand state.idtr
      → let torn =
          hand_back env state
            (after_leave env r m (after_vmxoff (firmware env m) flags operation (processor m))) in
        IsHandedBack state operation (IsFailure torn.0) torn.1
  after_leave-IsHandedBack state operation r m (ok nothing) g i =
      hand_back-IsHandedBack state.gdtr state.idtr state.interrupts_enabled operation r
        (after_leave env r m (after_vmxoff (firmware env m) (ok nothing) operation (processor m))).1
        g i (inl (refl, refl, refl))
  after_leave-IsHandedBack state operation r m (err e) g i =
      hand_back-IsHandedBack state.gdtr state.idtr state.interrupts_enabled operation _
        (after_leave env r m (after_vmxoff (firmware env m) (err e) operation (processor m))).1 g i
        (inr (also-IsFailure r _))

  -- Whatever fails, teardown loads the firmware's tables again, goes back to the boot-services phase, and
  -- turns interrupts on if they were; and the CPU has left VMX operation with the old CR0 and CR4, unless
  -- teardown returns a failure.
  pub teardown-IsHandedBack :
      (operation : VmxOperation) (vmcs : Option VmxRegion) (state : FirmwareState) (m : Machine)
      → let torn = teardown env operation vmcs state m in
        IsHandedBack state operation (IsFailure torn.0) torn.1
  unfolding teardown leave load_gdtr load_idtr
  teardown-IsHandedBack operation vmcs state m =
      after_leave-IsHandedBack state operation _ _ _ refl refl

  after_leave-left :
      (state : FirmwareState) (operation : VmxOperation) (r : Result (Unit {0}) TeardownError)
      (m : Machine) (flags : Result (Unit {0}) VmxFail)
      → check_rflags (env.vmxoff (processor m)) ≡ flags
      → let m' =
          (hand_back env state (
            after_leave env r m (after_vmxoff (firmware env m) flags operation (processor m)))).1 in
        HasLeft operation m' ⊎ IsFailure (check_rflags (env.vmxoff (processor m')))
  unfolding enable_interrupts
  after_leave-left state operation r m (ok nothing) h = elim (Bool-cases state.interrupts_enabled) [
    | inl on ↦ inl (rw on (refl, refl, refl))
    | inr off ↦ inl (rw off (refl, refl, refl))
  ]
  after_leave-left state operation r m (err e) h = elim (Bool-cases state.interrupts_enabled) [
    | inl on ↦ inr (rw on (e, h))
    | inr off ↦ inr (rw off (e, h))
  ]

  -- The CPU has left VMX operation, unless VMXOFF fails on it.
  pub teardown-left :
      (operation : VmxOperation) (vmcs : Option VmxRegion) (state : FirmwareState) (m : Machine)
      → let m' = (teardown env operation vmcs state m).1 in
        HasLeft operation m' ⊎ IsFailure (check_rflags (env.vmxoff (processor m')))
  unfolding teardown leave load_gdtr load_idtr
  teardown-left operation vmcs state m = after_leave-left state operation _ _ _ refl
