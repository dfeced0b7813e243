-- ===== src/Examples/Handling.antt =====
-- The VM exits of one run of the guest, handled one after the other.
use aleph0_virtualization_hy.Base.{
  ℕ, ◌+◌, ◌*◌, ◌%◌, ◌^◌, ◌≡◌, refl, List, [], ◌∷◌, arith, ◌==◌, if◌then◌else◌, some, none, inl,
  false,
}
use aleph0_virtualization_hy.Guest.{
  guest_marker, guest_data_seed, guest_ept_value, guest_scratch_port,
}
use aleph0_virtualization_hy.Instruction.{check_rflags}
use aleph0_virtualization_hy.ExitDecision.InterruptionInfo
use aleph0_virtualization_hy.ExitDecision.Types.{
  ExitEvent, is_protected_write, from_raw, inject_nmi_plan, action, exit_reason_cpuid,
  exit_reason_vmcall, exit_reason_io_instruction, exit_reason_rdmsr, exit_reason_wrmsr,
  exit_reason_ept_violation,
}
use aleph0_virtualization_hy.ExitDecision.Emulation
use aleph0_virtualization_hy.ExitDecision.Scenario
use aleph0_virtualization_hy.ExitDecision.Decide.{dispatch, decide}
use aleph0_virtualization_hy.ExitBitmaps.{msr_bit}
use aleph0_virtualization_hy.Ept.Publish.{protected_page, grant_write, decode_invept}
use aleph0_virtualization_hy.Vmcs.Access.{Vmcs, vmread, vmwrite}
use aleph0_virtualization_hy.Vmcs.Fields.Exits.{
  vm_exit_reason, exit_qualification, guest_physical_address, vm_exit_instruction_len,
}
use aleph0_virtualization_hy.VmExit.Machine.{Machine, Devices, initially}
use aleph0_virtualization_hy.VmExit.State.{load_state, store_state, judge}
use aleph0_virtualization_hy.VmExit.Execute.{execute}
use aleph0_virtualization_hy.VmExit.Reading.{read_exit, read_or_report}
use aleph0_virtualization_hy.VmExit.Resume.{
  queue_general_protection, emulate_step, length_step, advance_step, when, window_step, grant_page,
  grant_step, prepare_resume,
}
use aleph0_virtualization_hy.VmExit.Handler.{stub_return, carry_out, apply, vmexit_handler}
use aleph0_virtualization_hy.Vmcs.Launch
use aleph0_virtualization_hy.Vmcs.Launch.{decode, encode_finished}
use aleph0_virtualization_hy.VmExit.Finish.{IsMachineWord, vmexit_handler-finished}
use aleph0_virtualization_hy.VmExit.Runs.{Run, started, resumed, Run-Session}
use aleph0_virtualization_hy.VmExit.Handled.{judgement}
use aleph0_virtualization_hy.VmExit.Confined.{aside, vmexit_handler-confined}
use aleph0_virtualization_hy.VmExit.Effects.{prepare_resume-vmcs}
use aleph0_virtualization_hy.VmExit.Effects.Planned.{window_controls}
use aleph0_virtualization_hy.ExitDecision.Session.{Session}
use aleph0_virtualization_hy.ExitDecision.Finish.{IsComplete}
use aleph0_virtualization_hy.Vmcs.Writes.{IsWorking}
use aleph0_virtualization_hy.Vmcs.Fields.Guest.{guest_rip}
use aleph0_virtualization_hy.Vmcs.Fields.Controls.{
  primary_vm_exec_control, vm_entry_interruption_info, vm_entry_exception_error_code,
}

abbrev pub devices : Devices
devices = record {
  cpu = record { read_flags = λ field. 2; write_flags = λ field. 2; kept = λ field value. value };
  cpuid_count = λ leaf subleaf. record { eax = 1; ebx = 2; ecx = 3; edx = 4 };
  port_in = λ outputs port size. 0x5A;
  invept = λ type eptp. 2;
}

abbrev pub at_launch : Machine
at_launch = record {
  vmcs = λ field. 0;
  frame = record {
    rax = 0;
    rbx = 0;
    rcx = 0;
    rdx = 0;
    rsi = 0;
    rdi = 0;
    rbp = 0;
    r8 = 0;
    r9 = 0;
    r10 = 0;
    r11 = 0;
    r12 = 0;
    r13 = 0;
    r14 = 0;
    r15 = 0;
  };
  memory = λ address. 0;
  msrs = λ msr. 0;
  outputs = [];
  ept = record {
    protected_gpa = 0x5000;
    protected_entry = 0x9000;
    published_eptp = 0x1001E;
    invept_type = 1;
  };
  kept = initially;
}

-- The guest exits for a reason, with a qualification, a guest-physical address and three registers.
abbrev pub exiting : Machine → ℕ → ℕ → ℕ → ℕ → ℕ → ℕ → Machine
exiting m reason qualification physical rax rcx rdx = record m {
  vmcs = λ field.
      if field == vm_exit_reason
      then reason
      else if field == exit_qualification
      then qualification
      else if field == guest_physical_address
      then physical
      else if field == vm_exit_instruction_len
      then 2
      else 0;
  frame = record m.frame { rax = rax; rcx = rcx; rdx = rdx };
}

abbrev pub after : Machine → Machine
after m = (vmexit_handler devices m).1

abbrev m1 : Machine
m1 = exiting (at_launch) exit_reason_ept_violation 394 0x5008 0 0 0

abbrev m2 : Machine
m2 = exiting (after m1) exit_reason_vmcall 0 0 guest_marker guest_data_seed guest_ept_value

abbrev m3 : Machine
m3 = exiting (after m2) exit_reason_cpuid 0 0 1 0 0

abbrev m4 : Machine
m4 = exiting (after m3) exit_reason_rdmsr 0 0 0 0xC000_0102 0

abbrev m5 : Machine
m5 = exiting (after m4) exit_reason_rdmsr 0 0 0 0xC000_0102 0

abbrev m6 : Machine
m6 = exiting (after m5) exit_reason_wrmsr 0 0 0 0xC000_0102 0x7A1E

abbrev m7 : Machine
m7 = exiting (after m6) exit_reason_wrmsr 0 0 0 0xC000_0102 0x7A1E

abbrev m8 : Machine
m8 = exiting (after m7) exit_reason_io_instruction (guest_scratch_port * 2 ^ 16 + 8) 0 0 0 0

abbrev m9 : Machine
m9 = exiting (after m8) exit_reason_io_instruction (guest_scratch_port * 2 ^ 16 + 8) 0 0 0 0

abbrev m10 : Machine
m10 = exiting (after m9) exit_reason_io_instruction (guest_scratch_port * 2 ^ 16) 0 0xA5 0 0

abbrev m11 : Machine
m11 = exiting (after m10) exit_reason_io_instruction (guest_scratch_port * 2 ^ 16) 0 0xA5 0 0

abbrev at_last : Machine
at_last = exiting (after m11) exit_reason_vmcall 0 0 (guest_marker + 1) 0 0

abbrev event : Machine → ExitEvent
event m = (judgement devices m).0

-- The latest first.
abbrev events : List ExitEvent
events =
    event m11
    ∷ event m10
    ∷ event m9
    ∷ event m8
    ∷ event m7
    ∷ event m6
    ∷ event m5
    ∷ event m4
    ∷ event m3
    ∷ event m2
    ∷ event m1
    ∷ []

handled-Run : Run devices events (after m11)
unfolding vmexit_handler judge apply load_state store_state carry_out stub_return prepare_resume
    length_step emulate_step advance_step when window_step grant_step grant_page
    queue_general_protection execute read_exit read_or_report vmread vmwrite check_rflags from_raw
    protected_page decode_invept grant_write decide dispatch Scenario.ept_violation
    is_protected_write Scenario.vmcall Emulation.cpuid Emulation.rdmsr Emulation.wrmsr Emulation.io
    Emulation.route Emulation.is_canonical_48 Emulation.size Emulation.is_in Emulation.is_string
    Emulation.is_rep Emulation.port Emulation.out_value Scenario.exception_or_nmi
    InterruptionInfo.is_nmi InterruptionInfo.vector InterruptionInfo.is_valid Scenario.injected
    Scenario.expected_main_rax Scenario.data_page_read_back msr_bit action
handled-Run =
    let r1 = resumed (started at_launch refl) m1 (after m1) refl refl in
    let r2 = resumed r1 m2 (after m2) refl refl in
    let r3 = resumed r2 m3 (after m3) refl refl in
    let r4 = resumed r3 m4 (after m4) refl refl in
    let r5 = resumed r4 m5 (after m5) refl refl in
    let r6 = resumed r5 m6 (after m6) refl refl in
    let r7 = resumed r6 m7 (after m7) refl refl in
    let r8 = resumed r7 m8 (after m8) refl refl in
    let r9 = resumed r8 m9 (after m9) refl refl in
    let r10 = resumed r9 m10 (after m10) refl refl in resumed r10 m11 (after m11) refl refl

last-finishes : decode (vmexit_handler devices at_last).0 ≡ Launch.finished 12
unfolding vmexit_handler judge apply load_state store_state carry_out stub_return prepare_resume
    length_step emulate_step advance_step when window_step grant_step grant_page
    queue_general_protection execute read_exit read_or_report vmread vmwrite check_rflags from_raw
    protected_page decode_invept grant_write decide dispatch Scenario.ept_violation
    is_protected_write Scenario.vmcall Emulation.cpuid Emulation.rdmsr Emulation.wrmsr Emulation.io
    Emulation.route Emulation.is_canonical_48 Emulation.size Emulation.is_in Emulation.is_string
    Emulation.is_rep Emulation.port Emulation.out_value Scenario.exception_or_nmi
    InterruptionInfo.is_nmi InterruptionInfo.vector InterruptionInfo.is_valid Scenario.injected
    Scenario.expected_main_rax Scenario.data_page_read_back msr_bit action encode_finished decode
last-finishes = refl

at_last-IsMachineWord : IsMachineWord at_last
at_last-IsMachineWord = record {
  rax = omega arith;
  rcx = omega arith;
  rdx = omega arith;
  fields = λ field. ground arith;
}

Run-Session_example :
    Session events (load_state (after m11).kept) × ((after m11).kept.exit_count ≡ 11 % 2 ^ 64)
Run-Session_example = Run-Session devices events (after m11) handled-Run

vmexit_handler-finished_example :
    IsComplete events × (at_last.frame.rax ≡ guest_marker + 1) × (12 ≡ (11 + 1) % 2 ^ 62)
vmexit_handler-finished_example =
    vmexit_handler-finished devices events 12 (after m11) at_last handled-Run refl
      at_last-IsMachineWord last-finishes

vmexit_handler-confined_example :
    ((after m4).vmcs vm_exit_reason ≡ exit_reason_rdmsr) × (aside (after m4) ≡ aside m4)
vmexit_handler-confined_example = vmexit_handler-confined devices m4 vm_exit_reason refl

-- A CPU on which every VMREAD fails.
abbrev unreadable : Devices
unreadable = record devices {
  cpu = record { read_flags = λ field. 1; write_flags = λ field. 2; kept = λ field value. value };
}

pub devices-IsWorking : IsWorking devices.cpu
unfolding check_rflags
devices-IsWorking = record {
  reads = λ field. refl;
  writes = λ field. refl;
  keeps = λ field value h. refl;
}

prepare_resume-vmcs_example :
    let resumed_vmcs : Vmcs =
      (prepare_resume devices (some 0x1000) none inject_nmi_plan none at_launch).1.vmcs in
    (resumed_vmcs guest_rip ≡ 0)
    × (resumed_vmcs vm_entry_interruption_info ≡ InterruptionInfo.nmi)
    × (resumed_vmcs vm_entry_exception_error_code ≡ 0)
    × (resumed_vmcs primary_vm_exec_control ≡ window_controls (some false) 0)
prepare_resume-vmcs_example =
    prepare_resume-vmcs devices inject_nmi_plan none 0x1000 0 none at_launch devices-IsWorking
      (omega arith) (inl refl)
