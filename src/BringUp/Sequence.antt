-- ===== src/BringUp/Sequence.antt =====
-- The sequence of src/bring_up/mod.rs: `run` and the steps that it is made of.
use aleph0_virtualization_hy.Base.{
  ℕ, true, Option, none, some, read_bytes, from_le_bytes, Result, ok, err,
}
use aleph0_virtualization_hy.Ept.Publish.{Ept, Statics, build}
use aleph0_virtualization_hy.Ept.Support.{InveptType, EptError, check_support}
use aleph0_virtualization_hy.Ept.Tables.{Tables}
use aleph0_virtualization_hy.ExitBitmaps.Region.{ExitBitmaps}
use aleph0_virtualization_hy.GuestMemory.{GuestMemory, stack_top, data_page, check_mappings}
use aleph0_virtualization_hy.Paging.{walk_current}
use aleph0_virtualization_hy.Vmcs.Controls.{VmcsControlMsrs, read_vmcs_control_msrs}
use aleph0_virtualization_hy.Vmcs.Launch
use aleph0_virtualization_hy.Vmcs.Launch.{GuestStop, launch}
use aleph0_virtualization_hy.VmExit.Stack.{VmExitStack, top}
use aleph0_virtualization_hy.VmxOperation.{
  VmxCapabilities, supported, not_supported_by_cpu, disabled_by_firmware, detect, VmxRegion,
  VmxOnError, unsupported_region_size, VmxOperation, Processor, enter_vmx_root_operation,
}
use aleph0_virtualization_hy.BringUp.Error.{
  guest_memory, ept, vmx_not_supported_by_cpu, vmx_disabled_by_firmware, vmx_on, vmcs,
  unexpected_exit, resume_failed, teardown_error, number_now,
}
use aleph0_virtualization_hy.BringUp.Step.{
  Outcome, done, failed, panicked, Step, outcome, outcome_or_panic, pure, fail, or_panic, ◌>>=◌,
  ◌>>◌,
}
use aleph0_virtualization_hy.BringUp.Machine.{
  Machine, Environment, interrupts_enabled, load_gdtr, ept_pages, vmxon_region,
}
use aleph0_virtualization_hy.BringUp.Allocation.{
  get, allocate_stack, allocate_guest, allocate_bitmaps, create_current,
}
use aleph0_virtualization_hy.BringUp.Tables.{
  HostTables, activate_host_tables, check_host_tables_preserved,
}
use aleph0_virtualization_hy.BringUp.Prepare.{prepare_vmcs}
use aleph0_virtualization_hy.BringUp.Teardown.{
  FirmwareState, Torn, processor, with_processor, firmware, teardown,
}

pub record GuestRun : Type 0 where
  pub exits : ℕ

pub record VmxEntry : Type 0 where
  pub vmexit_stack : VmExitStack
  pub guest : GuestMemory
  pub ept : Ept
  pub bitmaps : ExitBitmaps
  pub controls : VmcsControlMsrs
  pub firmware : FirmwareState
  pub vmx_operation : VmxOperation

-- The entries of a page table, each eight bytes of memory.
abbrev pub read_entry : (ℕ → ℕ) → ℕ → ℕ
read_entry memory address = from_le_bytes (read_bytes memory address 8)

unfoldable pub guest_result : GuestStop → Outcome GuestRun
guest_result (Launch.finished exits) = done (record { exits = exits })
guest_result (Launch.unexpected number reason) = failed (unexpected_exit number reason)
guest_result (Launch.launch_failed error instruction_error) =
    failed (vmcs "launch" error instruction_error)
guest_result (Launch.resume_failed error instruction_error) =
    failed (resume_failed error instruction_error)

unfoldable pub detected : VmxCapabilities → Step Machine (Unit {0})
detected supported = pure tt
detected not_supported_by_cpu = fail vmx_not_supported_by_cpu
detected disabled_by_firmware = fail vmx_disabled_by_firmware

module _ (env : Environment) where
  unfoldable pub check_vmx_support : Step Machine (VmcsControlMsrs × InveptType)
  check_vmx_support = do
    now ← get
    detected (detect env.cpuid_1_ecx now.host.rdmsr)
    let controls = read_vmcs_control_msrs now.host.rdmsr
    invept ← (λ m. (outcome ept (check_support controls.secondary controls.ept_vpid_cap), m))
    pure (controls, invept)

  -- `Ept::build` with `?`.
  abbrev pub built : Option (Result (Ept × Tables × Statics) EptError) → Step Machine Ept
  built none m = (panicked, m)
  built (some (err e)) m = (failed (ept e), m)
  built (some (ok (it, tables, statics))) m =
      (done it, record m { tables = some tables; statics = statics })

  unfoldable pub build_ept : GuestMemory → InveptType → Step Machine Ept
  build_ept guest invept m =
      let called = record m { host = env.call ept_pages m.host } in
      built (build env.memory_map env.ept_page (data_page guest) invept m.statics) called

  -- `enter_vmx_root_operation` with `?`; the allocator is called unless the region's size is refused.
  abbrev pub entered :
      Machine
      → Machine
      → Result VmxOperation VmxOnError × Processor
      → Outcome VmxOperation × Machine
  entered before called (ok operation, p) =
      (done operation, record (with_processor p called) { in_vmx = true })
  entered before called (err unsupported_region_size, p) =
      (failed (vmx_on unsupported_region_size), before)
  entered before called (err e, p) = (failed (vmx_on e), with_processor p called)

  unfoldable pub enter_operation : Step Machine VmxOperation
  enter_operation m =
      let called = record m { host = env.call vmxon_region m.host } in
      entered m called (enter_vmx_root_operation (firmware env called) (processor called))

  unfoldable pub enter_vmx : HostTables → Step Machine VmxEntry
  enter_vmx host_tables = do
    stack ← allocate_stack env
    stack_end ← or_panic (top stack)
    guest ← allocate_guest env
    guest_end ← or_panic (stack_top guest)
    mappings ← (λ m. (
      outcome_or_panic guest_memory (
          check_mappings (walk_current (read_entry m.host.memory) m.host.cr4 m.host.cr3) m.host.cr4
            guest),
      m,
    ))
    bitmaps ← allocate_bitmaps env
    found ← check_vmx_support
    identity ← build_ept guest found.1
    now ← get
    operation ← enter_operation
    pure (record {
      vmexit_stack = stack;
      guest = guest;
      ept = identity;
      bitmaps = bitmaps;
      controls = found.0;
      firmware = record {
        gdtr = host_tables.firmware_gdtr;
        idtr = host_tables.idtr;
        interrupts_enabled = interrupts_enabled now;
      };
      vmx_operation = operation;
    })

  -- `prepare_vmcs` on the VMCS of the machine.
  unfoldable pub prepare : VmxEntry → Step Machine (Unit {0})
  prepare entry m =
      let (r, s) =
        prepare_vmcs env.cpu m.host env.entry_address entry.controls entry.vmexit_stack entry.guest
          entry.ept entry.bitmaps m.vmcs in
      (r, record m { vmcs = s })

  -- `vmx::vmcs::launch`: the guest runs until it stops, and the stop is decoded.
  unfoldable pub launch_and_stop : Step Machine GuestRun
  launch_and_stop m =
      let (value, stopped) = env.run_guest m in
      (guest_result (launch (number_now env.cpu stopped.vmcs) value), stopped)

  unfoldable pub launch_guest : VmxEntry → HostTables → Step Machine GuestRun
  launch_guest entry host_tables = do
    prepare entry
    check_host_tables_preserved host_tables
    launch_and_stop

  -- The end of `run`: the first failure is returned, and teardown's only if there is no other.
  abbrev pub finished : Outcome GuestRun → Torn → Outcome GuestRun × Machine
  finished panicked (left, m) = (panicked, m)
  finished (failed e) (left, m) = (failed e, m)
  finished (done guest_run) (err e, m) = (failed (teardown_error e), m)
  finished (done guest_run) (ok left, m) = (done guest_run, m)

  -- What follows `VmcsRegion::create_current`; a panic halts, with no teardown.
  abbrev pub tear_down :
      VmxEntry → Option VmxRegion → Outcome GuestRun × Machine → Outcome GuestRun × Machine
  tear_down entry region (panicked, m) = (panicked, m)
  tear_down entry region (failed e, m) =
      finished (failed e) (teardown env entry.vmx_operation region entry.firmware m)
  tear_down entry region (done guest_run, m) =
      finished (done guest_run) (teardown env entry.vmx_operation region entry.firmware m)

  abbrev pub with_vmcs :
      VmxEntry → HostTables → Outcome VmxRegion × Machine → Outcome GuestRun × Machine
  with_vmcs entry host_tables (done region, m) =
      tear_down entry (some region) (launch_guest entry host_tables m)
  with_vmcs entry host_tables (failed e, m) = tear_down entry none (failed e, m)
  with_vmcs entry host_tables (panicked, m) = (panicked, m)

  -- What follows `enter_vmx`: on a failure the firmware's GDTR is loaded again.
  abbrev pub with_entry : HostTables → Outcome VmxEntry × Machine → Outcome GuestRun × Machine
  with_entry host_tables (done entry, m) = with_vmcs entry host_tables (create_current env m)
  with_entry host_tables (failed e, m) =
      (failed e, record m { host = load_gdtr host_tables.firmware_gdtr m.host })
  with_entry host_tables (panicked, m) = (panicked, m)

  unfoldable pub run : Step Machine GuestRun
  run = do
    host_tables ← activate_host_tables env
    (λ m. with_entry host_tables (enter_vmx host_tables m))
