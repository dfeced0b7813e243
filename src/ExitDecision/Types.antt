-- ===== src/ExitDecision/Types.antt =====
-- The exit types of src/vmx/exit_decision/mod.rs and emulation.rs: what an exit says, what the
-- handler remembers, what an exit turns out to be, and what is done about it.
use aleph0_virtualization_hy.Base.{
  ℕ, ◌<◌, ◌^◌, Bool, true, false, ◌&&◌, Option, none, some, bit_and, bit_or, ◌==◌, ◌!=◌, u16,
}

-- `basic` is a u16.
pub record ExitReason : Type 0 where
  pub basic : ℕ
  pub entry_failure : Bool

-- `raw as u16` and bit 31.
unfoldable pub from_raw : ℕ → ExitReason
from_raw raw = record { basic = u16 raw; entry_failure = bit_and raw (2 ^ 31) != 0 }

abbrev pub unreadable_reason : ℕ
unreadable_reason = 0xFFFF

abbrev pub exit_reason_exception_or_nmi : ℕ
exit_reason_exception_or_nmi = 0

abbrev pub exit_reason_nmi_window : ℕ
exit_reason_nmi_window = 8

abbrev pub exit_reason_cpuid : ℕ
exit_reason_cpuid = 10

abbrev pub exit_reason_vmcall : ℕ
exit_reason_vmcall = 18

abbrev pub exit_reason_io_instruction : ℕ
exit_reason_io_instruction = 30

abbrev pub exit_reason_rdmsr : ℕ
exit_reason_rdmsr = 31

abbrev pub exit_reason_wrmsr : ℕ
exit_reason_wrmsr = 32

abbrev pub exit_reason_ept_violation : ℕ
exit_reason_ept_violation = 48

abbrev pub exit_reason_ept_misconfig : ℕ
exit_reason_ept_misconfig = 49

abbrev pub ept_access_write : ℕ
ept_access_write = 2 ^ 1

abbrev pub ept_page_readable : ℕ
ept_page_readable = 2 ^ 3

abbrev pub ept_page_writable : ℕ
ept_page_writable = 2 ^ 4

abbrev pub ept_linear_valid : ℕ
ept_linear_valid = 2 ^ 7

abbrev pub ept_translated_access : ℕ
ept_translated_access = 2 ^ 8

abbrev pub ept_nmi_unblocking_iret : ℕ
ept_nmi_unblocking_iret = 2 ^ 12

-- `EptQualification` is the raw u64.
unfoldable pub is_write : ℕ → Bool
is_write qualification = bit_and qualification ept_access_write != 0

unfoldable pub linear_valid : ℕ → Bool
linear_valid qualification = bit_and qualification ept_linear_valid != 0

unfoldable pub is_protected_write : ℕ → Bool
is_protected_write qualification =
    let required =
      bit_or (bit_or (bit_or ept_access_write ept_page_readable) ept_linear_valid)
        ept_translated_access in
    let refused = bit_or ept_page_writable ept_nmi_unblocking_iret in
    (bit_and qualification required == required) && (bit_and qualification refused == 0)

-- A u64 or u32 each, but for the flags.
pub record ExitInfo : Type 0 where
  pub reason : ExitReason
  pub interruption_info : ℕ
  pub guest_rax : ℕ
  pub guest_rcx : ℕ
  pub guest_rdx : ℕ
  pub interruptibility : ℕ
  pub idt_vectoring_valid : Bool
  pub qualification : ℕ
  pub guest_physical : ℕ
  pub protected_page : ℕ

-- The fields that are u64 are below 2 ^ 64.
pub record IsWord (exit : ExitInfo) : Type 0 where
  pub rax : exit.guest_rax < 2 ^ 64
  pub rcx : exit.guest_rcx < 2 ^ 64
  pub rdx : exit.guest_rdx < 2 ^ 64
  pub physical : exit.guest_physical < 2 ^ 64

pub record EmulationCounts : Type 0 where
  pub cpuid : ℕ
  pub rdmsr : ℕ
  pub wrmsr : ℕ
  pub io_in : ℕ
  pub io_out : ℕ

pub record ExitState : Type 0 where
  pub main_vmcalls : ℕ
  pub nmi_pending : Bool
  pub nmis_injected : ℕ
  pub nmis_handled : ℕ
  pub ept_writes_granted : ℕ
  pub emulated : EmulationCounts

-- `ExitState::default()`, before the first exit.
abbrev pub initial_state : ExitState
initial_state = record {
  main_vmcalls = 0;
  nmi_pending = false;
  nmis_injected = 0;
  nmis_handled = 0;
  ept_writes_granted = 0;
  emulated = record { cpuid = 0; rdmsr = 0; wrmsr = 0; io_in = 0; io_out = 0 };
}

pub data IoSize : Type 0 where
  byte word dword : IoSize

pub data Emulation : Type 0 where
  -- leaf, subleaf
  cpuid : ℕ → ℕ → Emulation
  -- msr
  rdmsr : ℕ → Emulation
  -- msr, value
  wrmsr : ℕ → ℕ → Emulation
  -- port, size
  io_in : ℕ → IoSize → Emulation
  -- port, size, value
  io_out : ℕ → IoSize → ℕ → Emulation

pub data ExitEvent : Type 0 where
  main_vmcall last_main_vmcall guest_nmi_handler nmi_injected nmi_deferred : ExitEvent
  nmi_window_injected interrupted_delivery ept_write_granted ept_write_missing : ExitEvent
  data_page_mismatch guest_general_protection emulation_missing unexpected : ExitEvent
  emulated : Emulation → ExitEvent

pub record ResumePlan : Type 0 where
  pub advance_rip : Bool
  pub inject_nmi : Bool
  pub nmi_window : Option Bool
  pub grant_write : Bool
  pub emulate : Option Emulation
  pub inject_gp : Bool

abbrev pub past_instruction : ResumePlan
past_instruction = record {
  advance_rip = true;
  inject_nmi = false;
  nmi_window = none;
  grant_write = false;
  emulate = none;
  inject_gp = false;
}

abbrev pub inject_nmi_plan : ResumePlan
inject_nmi_plan = record {
  advance_rip = false;
  inject_nmi = true;
  nmi_window = some false;
  grant_write = false;
  emulate = none;
  inject_gp = false;
}

abbrev pub wait_for_nmi_window : ResumePlan
wait_for_nmi_window = record {
  advance_rip = false;
  inject_nmi = false;
  nmi_window = some true;
  grant_write = false;
  emulate = none;
  inject_gp = false;
}

abbrev pub retry_after_grant : ResumePlan
retry_after_grant = record {
  advance_rip = false;
  inject_nmi = false;
  nmi_window = none;
  grant_write = true;
  emulate = none;
  inject_gp = false;
}

abbrev pub inject_gp_plan : ResumePlan
inject_gp_plan = record {
  advance_rip = false;
  inject_nmi = false;
  nmi_window = none;
  grant_write = false;
  emulate = none;
  inject_gp = true;
}

pub data ExitAction : Type 0 where
  resume : ResumePlan → ExitAction
  finished unexpected : ExitAction

-- `ExitEvent::action`.
unfoldable pub action : ExitEvent → ExitAction
action main_vmcall = resume past_instruction
action guest_nmi_handler = resume past_instruction
action nmi_injected = resume inject_nmi_plan
action nmi_window_injected = resume inject_nmi_plan
action nmi_deferred = resume wait_for_nmi_window
action ept_write_granted = resume retry_after_grant
action (emulated emulation) = resume (record past_instruction { emulate = some emulation })
action guest_general_protection = resume inject_gp_plan
action last_main_vmcall = finished
action interrupted_delivery = ExitAction.unexpected
action ept_write_missing = ExitAction.unexpected
action data_page_mismatch = ExitAction.unexpected
action emulation_missing = ExitAction.unexpected
action ExitEvent.unexpected = ExitAction.unexpected
