-- ===== src/Examples/Booting.antt =====
-- A whole bring-up on one machine: the guest runs, finishes after three exits, and the CPU is handed back.
use aleph0_virtualization_hy.Base.{
  ℕ, ◌+◌, ◌-◌, ◌*◌, ◌^◌, ◌≡◌, refl, ap₂, true, false, ◌||◌, ◌++◌, ltb, leb, ◌==◌, ◌&&◌, none, some,
  [], ◌∷◌, bit_or, u8, to_le_bytes, shr, if◌then◌else◌,
}
use aleph0_virtualization_hy.BringUp.Tables
use aleph0_virtualization_hy.BringUp.Allocation
use aleph0_virtualization_hy.BringUp.Teardown
use aleph0_virtualization_hy.BringUp.Prepare
use aleph0_virtualization_hy.BringUp.Sequence
use aleph0_virtualization_hy.HostTables
use aleph0_virtualization_hy.Segment
use aleph0_virtualization_hy.GuestMemory
use aleph0_virtualization_hy.Paging
use aleph0_virtualization_hy.ExitBitmaps
use aleph0_virtualization_hy.VmxOperation
use aleph0_virtualization_hy.Instruction
use aleph0_virtualization_hy.Vmcs.Controls
use aleph0_virtualization_hy.Msr.Controls as MsrControls
use aleph0_virtualization_hy.Ept.Support
use aleph0_virtualization_hy.Ept.Publish
use aleph0_virtualization_hy.Ept.Range
use aleph0_virtualization_hy.Ept.Tables as EptTables
use aleph0_virtualization_hy.Ept.Entry
use aleph0_virtualization_hy.Vmcs.Access
use aleph0_virtualization_hy.Vmcs.HostState
use aleph0_virtualization_hy.GuestState
use aleph0_virtualization_hy.ExitBitmaps.Region
use aleph0_virtualization_hy.VmExit.Stack
use aleph0_virtualization_hy.Vmcs.Launch
use aleph0_virtualization_hy.Msr.{
  ia32_feature_control, ia32_vmx_basic, ia32_vmx_cr0_fixed0, ia32_vmx_cr4_fixed0,
  ia32_vmx_cr0_fixed1, ia32_vmx_cr4_fixed1, ia32_vmx_ept_vpid_cap, ia32_vmx_pinbased_ctls,
  ia32_vmx_procbased_ctls2,
}
use aleph0_virtualization_hy.Ept.Publish.{initial_statics}
use aleph0_virtualization_hy.Segment.{Host}
use aleph0_virtualization_hy.Vmcs.Launch.{encode_finished}
use aleph0_virtualization_hy.BringUp.Step.{done}
use aleph0_virtualization_hy.BringUp.Machine
use aleph0_virtualization_hy.BringUp.Machine.{
  Machine, Environment, Request, boot_services, tss_page, gdt_page, exit_stack, guest_code,
  guest_stack, guest_idt, msr_page, io_a_page, io_b_page, ept_pages, vmxon_region, vmcs_region,
}
use aleph0_virtualization_hy.BringUp.Sequence.{enter_vmx, run}
use aleph0_virtualization_hy.BringUp.HandedBack.{IsHandedBack, IsFailure, teardown-IsHandedBack}
use aleph0_virtualization_hy.BringUp.Tables.{HostTables, activate_host_tables}
use aleph0_virtualization_hy.BringUp.Teardown.{FirmwareState, teardown}
use aleph0_virtualization_hy.VmxOperation.{VmxOperation}
use aleph0_virtualization_hy.BringUp.Finished.{HasFinished, run-HasFinished}
use aleph0_virtualization_hy.Examples.Handling.{devices}

-- The page tables at 0x3000 map the first 2 MiB to themselves; 64-bit code is at 0x1008.
abbrev pub memory : ℕ → ℕ
memory address =
    if ltb address 0x1008
    then 0
    else if ltb address 0x1010
    then u8 (shr 0x00AF_9A00_0000_FFFF (8 * (address - 0x1008)))
    else if address == 0x3000
    then 3
    else if address == 0x3001
    then 0x40
    else if address == 0x4000
    then 3
    else if address == 0x4001
    then 0x60
    else if address == 0x6000
    then 0x83
    else 0

-- Every control is allowed and none is required.
abbrev pub msrs : ℕ → ℕ
msrs msr =
    if msr == ia32_vmx_cr0_fixed0
    then 0x8000_0021
    else if msr == ia32_vmx_cr4_fixed0
    then 0x2000
    else if (msr == ia32_vmx_cr0_fixed1) || (msr == ia32_vmx_cr4_fixed1)
    then 2 ^ 32 - 1
    else if msr == ia32_feature_control
    then 5
    else if msr == ia32_vmx_basic
    then 0x1000 * 2 ^ 32 + 1
    else if msr == ia32_vmx_ept_vpid_cap
    then 0x0611_4040
    else if leb ia32_vmx_pinbased_ctls msr && leb msr ia32_vmx_procbased_ctls2
    then (2 ^ 32 - 1) * 2 ^ 32
    else 0

abbrev start : Machine
start = record {
  host = record {
    sgdt = to_le_bytes 2 0x17 ++ to_le_bytes 8 0x1000;
    sidt = to_le_bytes 2 47 ++ to_le_bytes 8 0x2000;
    cs = 8;
    ss = 0;
    ds = 0;
    es = 0;
    fs = 0;
    gs = 0;
    tr = 0;
    rdmsr = msrs;
    cr0 = 0x8001_0033;
    cr3 = 0x3000;
    cr4 = 0x668;
    memory = memory;
  };
  rflags = 0x202;
  regions = λ address. 0;
  vmcs = λ field. 0;
  in_vmx = false;
  statics = initial_statics;
  tables = none;
  phase = boot_services;
}

abbrev page_of : Request → ℕ
page_of tss_page = 0x1_0000
page_of gdt_page = 0x1_1000
page_of exit_stack = 0x1_2000
page_of guest_code = 0x1_6000
page_of guest_stack = 0x1_8000
page_of guest_idt = 0x1_9000
page_of msr_page = 0x1_A000
page_of io_a_page = 0x1_B000
page_of io_b_page = 0x1_C000
page_of ept_pages = 0
page_of vmxon_region = 0x1_D000
page_of vmcs_region = 0x1_E000

-- The firmware changes nothing, and every VMX instruction succeeds.
abbrev pub env : Environment
env = record {
  page = λ request. some (page_of request);
  ept_page = λ i pages. some (0x100_0000 + i * 0x1000);
  call = λ request host. host;
  frees = true;
  memory_map = some ((0, 0x100) ∷ (0x10_0000, 0x1000) ∷ []);
  cpuid_1_ecx = 2 ^ 5;
  ltr_memory = λ before descriptor address.
      if address == descriptor + 5 then bit_or (before address) 2 else before address;
  cpu = devices.cpu;
  vmxon = λ region p. 2;
  vmxoff = λ p. 2;
  vmclear = λ region s. 2;
  vmptrld = λ region s. 2;
  loaded_vmcs = λ region field. 0;
  guest_bytes = 0x90 ∷ 0xF4 ∷ [];
  nmi_handler_offset = 1;
  entry_address = 0x40_0000;
  run_guest = λ m. (2 ^ 62 + 3, record m { rflags = 2; phase = Machine.vm_exit });
}

ends : (run env start).0 ≡ done (record { exits = 3 })
unfolding Tables.prepare_tables Tables.load_tables Tables.activate_tables
    Tables.activate_host_tables Tables.are_preserved Tables.check_host_tables_preserved
    Allocation.update Allocation.allocate_tss Allocation.allocate_stack
    Allocation.allocate_guest_pages Allocation.allocate_guest Allocation.allocate_bitmaps
    Allocation.create_current Machine.interrupts_enabled Machine.enable_interrupts Machine.load_gdtr
    Machine.load_idtr Machine.allocate_zeroed_pages Teardown.teardown Prepare.tagged
    Prepare.captured Prepare.stored Prepare.prepare_vmcs Sequence.guest_result Sequence.detected
    Sequence.check_vmx_support Sequence.build_ept Sequence.enter_operation Sequence.enter_vmx
    Sequence.prepare Sequence.launch_and_stop Sequence.launch_guest Sequence.run
    HostTables.tss_descriptor HostTables.copy_active HostTables.prepared_gdtr
    HostTables.append_tss_descriptor HostTables.descriptor_holds HostTables.verify_tss_descriptor
    HostTables.needs_ist HostTables.check_active HostTables.check_loaded HostTables.activate
    Segment.to_operand Segment.from_operand Segment.descriptor_offset Segment.base Segment.limit
    Segment.access_rights Segment.system_descriptor_base Segment.segment_base_from_gdt
    Segment.read_descriptor Segment.read_all GuestMemory.interrupt_gate GuestMemory.check_identity
    GuestMemory.check_permissions GuestMemory.check_idt_permissions
    GuestMemory.check_data_permissions GuestMemory.stack_top GuestMemory.check_all
    GuestMemory.check_mappings Paging.mapped_size Paging.physical_address Paging.walk_entry
    Paging.walk_from Paging.walk Paging.walk_current ExitBitmaps.msr_bit ExitBitmaps.io_bit
    ExitBitmaps.or_byte ExitBitmaps.fill_msr_bit ExitBitmaps.fill_msrs ExitBitmaps.fill_ports
    ExitBitmaps.fill VmxOperation.is_vmx_supported VmxOperation.feature_control_vmx_enabled
    VmxOperation.detect VmxOperation.vmcs_revision_id VmxOperation.enable_vmxe VmxOperation.allocate
    VmxOperation.apply_fixed_bits VmxOperation.enter_vmx_root_operation VmxOperation.leave
    Instruction.check_rflags Controls.primary_request Controls.read_vmcs_control_msrs
    Controls.choose_controls Controls.configure_controls MsrControls.required MsrControls.allowed
    MsrControls.allows MsrControls.choose Support.check_support Publish.decode_invept
    Publish.publish Publish.build_tables Publish.build Range.region_end Range.round_up
    Range.map_end_from Range.identity_map_end EptTables.store EptTables.fill_pdpt
    EptTables.fill_each EptTables.fill_identity_map Entry.index Entry.table Entry.large_page
    Entry.with_access Entry.page Entry.eptp_new Access.vmread Access.vmwrite Access.write_verified
    Access.write_all Access.configure_host_entry Access.set_ept_pointer Access.self_test
    HostState.is_refused HostState.configure_host_state GuestState.from_descriptor
    GuestState.is_usable GuestState.segment_from_gdt GuestState.check_segments
    GuestState.from_current GuestState.write_state_field GuestState.write_fields GuestState.write
    Region.write_to_vmcs Stack.top Launch.decode Launch.launch
ends = refl

abbrev after : Machine
after = (run env start).1

ends_after : run env start ≡ (done (record { exits = 3 }), after)
ends_after = ap₂ (λ r m. (r, m)) ends refl

run-HasFinished_example : HasFinished env 3 start after
run-HasFinished_example = run-HasFinished env 3 start after ends_after

abbrev tables : HostTables
tables = record {
  gdtr = record { base = 0x1_1000; limit = 0x27 };
  tr = 0x18;
  tss_base = 0x1_0000;
  idtr = record { base = 0x2000; limit = 47 };
  firmware_gdtr = record { base = 0x1000; limit = 0x17 };
}

abbrev on_tables : Machine
on_tables = (activate_host_tables env start).1

abbrev operation : VmxOperation
operation = record {
  region = record { phys_addr = 0x1_D000 };
  original_cr0 = 0x8001_0033;
  original_cr4 = 0x668;
}

abbrev firmware : FirmwareState
firmware = record {
  gdtr = record { base = 0x1000; limit = 0x17 };
  idtr = record { base = 0x2000; limit = 47 };
  interrupts_enabled = true;
}

teardown-IsHandedBack_example :
    IsHandedBack firmware operation
      (IsFailure (teardown env operation (some (record { phys_addr = 0x1_E000 })) firmware start).0)
      (teardown env operation (some (record { phys_addr = 0x1_E000 })) firmware start).1
teardown-IsHandedBack_example =
    teardown-IsHandedBack env operation (some (record { phys_addr = 0x1_E000 })) firmware start
