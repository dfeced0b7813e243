-- ===== src/BringUp/Restored.antt =====
-- What `run` of src/bring_up/mod.rs gives back to the firmware on every path.
use aleph0_virtualization_hy.Base.{◌≡◌, ◌⊎◌}
use aleph0_virtualization_hy.Instruction.{check_rflags}
use aleph0_virtualization_hy.Segment.{to_operand, read_gdtr, read_idtr}
use aleph0_virtualization_hy.BringUp.Step.{Outcome, done, failed, panicked}
use aleph0_virtualization_hy.BringUp.Machine.{Machine, Environment}
use aleph0_virtualization_hy.BringUp.Tables.{HostTables}
use aleph0_virtualization_hy.BringUp.Sequence.{GuestRun, VmxEntry}
use aleph0_virtualization_hy.BringUp.HandedBack.{IsHandedBack, IsFailure}
use aleph0_virtualization_hy.BringUp.Teardown.{processor}

module _ (env : Environment) where
  -- After VMXON: VMXOFF fails on the CPU as it is.
  abbrev pub CannotLeave : Machine → Type 0
  CannotLeave m = IsFailure (check_rflags (env.vmxoff (processor m)))

  -- What `run` has put back: on a failure before VMXON, the firmware's GDTR, with the CPU in VMX operation
  -- only if it was; after VMXON, all that teardown puts back, and the CPU has left VMX operation unless
  -- VMXOFF fails.
  abbrev pub IsRestored :
      HostTables → Machine → Outcome VmxEntry × Machine → Outcome GuestRun × Machine → Type 0
  IsRestored tables m (failed e, m2) (r, m') =
      (r ≡ failed e) × (m'.host.sgdt ≡ to_operand tables.firmware_gdtr) × (m'.in_vmx ≡ m.in_vmx)
  IsRestored tables m (done entry, m2) (r, m') =
      (entry.firmware.gdtr ≡ tables.firmware_gdtr)
      × (entry.firmware.idtr ≡ tables.idtr)
      × ((r ≡ panicked) ⊎ IsHandedBack entry.firmware entry.vmx_operation (CannotLeave m') m')
  IsRestored tables m (panicked, m2) (r, m') = r ≡ panicked

  abbrev Back : VmxEntry → Outcome GuestRun × Machine → Type 0
  Back entry (r, m) =
      (r ≡ panicked) ⊎ IsHandedBack entry.firmware entry.vmx_operation (CannotLeave m) m

  -- What activation has recorded.
  abbrev pub IsRecorded : Machine → Machine → HostTables → Type 0
  IsRecorded m m1 tables =
      (tables.firmware_gdtr ≡ read_gdtr m.host)
      × (tables.idtr ≡ read_idtr m1.host)
      × (m1.in_vmx ≡ m.in_vmx)
