-- ===== src/Examples/Exits.antt =====
-- Exits for the examples of src/vmx/exit_decision.
use aleph0_virtualization_hy.Base.{ℕ, ◌+◌, ◌*◌, ◌^◌, false}
use aleph0_virtualization_hy.Guest.{
  guest_data_seed, guest_ept_value, guest_marker, guest_scratch_port,
}
use aleph0_virtualization_hy.ExitDecision.Types.{ExitInfo, ExitState, initial_state}

-- An exit without an event, with the given reason, registers and qualification.
abbrev pub exit_by : ℕ → ℕ → ℕ → ℕ → ℕ → ExitInfo
exit_by reason rax rcx rdx qualification = record {
  reason = record { basic = reason; entry_failure = false };
  interruption_info = 0;
  guest_rax = rax;
  guest_rcx = rcx;
  guest_rdx = rdx;
  interruptibility = 0;
  idt_vectoring_valid = false;
  qualification = qualification;
  guest_physical = 0x5008;
  protected_page = 0x5000;
}

abbrev pub protected_write : ExitInfo
protected_write = exit_by 48 0 0 0 394

abbrev pub first_main : ExitInfo
first_main = exit_by 18 guest_marker guest_data_seed guest_ept_value 0

abbrev pub last_main : ExitInfo
last_main = exit_by 18 (guest_marker + 1) 0 0 0

abbrev pub cpuid_exit : ExitInfo
cpuid_exit = exit_by 10 1 0 0 0

abbrev pub rdmsr_exit : ExitInfo
rdmsr_exit = exit_by 31 0 0xC000_0102 0 0

abbrev pub wrmsr_exit : ExitInfo
wrmsr_exit = exit_by 32 0 0xC000_0102 0x7A1E 0

abbrev pub in_exit : ExitInfo
in_exit = exit_by 30 0 0 0 (guest_scratch_port * 2 ^ 16 + 8)

abbrev pub out_exit : ExitInfo
out_exit = exit_by 30 0xA5 0 0 (guest_scratch_port * 2 ^ 16)

-- An NMI of the host, with interrupts of the guest open.
abbrev pub nmi_exit : ExitInfo
nmi_exit = record (exit_by 0 0 0 0 0) { interruption_info = 0x8000_0202 }

-- The state after the write is granted.
abbrev pub granted : ExitState
granted = record initial_state { ept_writes_granted = 1 }

abbrev pub emulating : ℕ → ℕ → ℕ → ℕ → ℕ → ExitState
emulating c r w i o = record initial_state {
  main_vmcalls = 1;
  ept_writes_granted = 1;
  emulated = record { cpuid = c; rdmsr = r; wrmsr = w; io_in = i; io_out = o };
}
