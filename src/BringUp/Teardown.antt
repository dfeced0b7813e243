-- ===== src/BringUp/Teardown.antt =====
-- src/bring_up/teardown.rs: leaving VMX operation and handing the CPU back to the firmware.
use aleph0_virtualization_hy.Base.{Bool, Option, none, some, if◌then◌else◌, Result, ok, err}
use aleph0_virtualization_hy.Instruction.{VmxFail, check_rflags}
use aleph0_virtualization_hy.Segment.{DescriptorTable}
use aleph0_virtualization_hy.Vmcs.{from_fail}
use aleph0_virtualization_hy.VmxOperation.{VmxRegion, Processor, Firmware, VmxOperation, leave}
use aleph0_virtualization_hy.BringUp.Error.{TeardownError, vmclear, vmxoff}
use aleph0_virtualization_hy.BringUp.Machine.{
  Machine, Environment, vmxon_region, load_gdtr, load_idtr, enable_interrupts, boot_services,
}

pub record FirmwareState : Type 0 where
  pub gdtr : DescriptorTable
  pub idtr : DescriptorTable
  pub interrupts_enabled : Bool

-- The part of the machine that src/vmx/vmxon.rs reads and writes.
abbrev pub processor : Machine → Processor
processor m = record { cr0 = m.host.cr0; cr4 = m.host.cr4; memory = m.regions }

abbrev pub with_processor : Processor → Machine → Machine
with_processor p m = record m {
  host = record m.host { cr0 = p.cr0; cr4 = p.cr4 };
  regions = p.memory;
}

abbrev pub Torn : Type 0
Torn = Result (Unit {0}) TeardownError × Machine

-- `Result::and`.
abbrev pub also : Result (Unit {0}) TeardownError → TeardownError → Result (Unit {0}) TeardownError
also (ok done) e = err e
also (err first) e = err first

module _ (env : Environment) where
  abbrev pub firmware : Machine → Firmware
  firmware m = record {
    rdmsr = m.host.rdmsr;
    page = env.page vmxon_region;
    vmxon = env.vmxon;
    vmxoff = env.vmxoff;
  }

  -- `VmcsRegion::vmclear`, when there is a VMCS.
  abbrev pub cleared : Option VmxRegion → Machine → Result (Unit {0}) TeardownError
  cleared none m = ok tt
  cleared (some region) m = elim (check_rflags (env.vmclear region.phys_addr m.vmcs)) [
    | ok done ↦ ok tt
    | err e ↦ err (vmclear (from_fail e))
  ]

  -- What follows `vmx_operation.leave()`.
  abbrev pub after_leave :
      Result (Unit {0}) TeardownError → Machine → Result (Unit {0}) VmxFail × Processor → Torn
  after_leave result m (ok done, p) = (result, record (with_processor p m) { in_vmx = Bool.false })
  after_leave result m (err e, p) = (also result (vmxoff e), with_processor p m)

  abbrev pub hand_back : FirmwareState → Torn → Torn
  hand_back firmware_state (result, m) =
      let back = record m { phase = boot_services } in
      (result, if firmware_state.interrupts_enabled then enable_interrupts back else back)

  unfoldable pub teardown : VmxOperation → Option VmxRegion → FirmwareState → Machine → Torn
  teardown operation vmcs firmware_state m =
      let restored = record m {
        host = load_idtr firmware_state.idtr (load_gdtr firmware_state.gdtr m.host);
      } in
      hand_back firmware_state (
        after_leave (cleared vmcs restored) restored
          (leave (firmware restored) operation (processor restored)))
