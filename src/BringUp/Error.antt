-- ===== src/BringUp/Error.antt =====
-- src/bring_up/error.rs: why bring-up stopped. The two conversions read the VM-instruction error number
-- of the current VMCS at once, as long as it can be read.
use Prim.Native.String.{String}
use aleph0_virtualization_hy.Base.{ℕ, Option, none, Result, ok, err}
use aleph0_virtualization_hy.Instruction.{VmxFail}
use aleph0_virtualization_hy.Ept.Support.{EptError}
use aleph0_virtualization_hy.ExitDecision.Types.{ExitReason}
use aleph0_virtualization_hy.GuestMemory.{GuestMemoryError}
use aleph0_virtualization_hy.GuestState.{
  GuestStateError, bad_selector, cs_not_64_bit, tr_not_busy_tss,
}
use aleph0_virtualization_hy.GuestState
use aleph0_virtualization_hy.HostTables.{GdtError}
use aleph0_virtualization_hy.Vmcs.{VmcsError}
use aleph0_virtualization_hy.Vmcs.Access.{Vmcs, Cpu, instruction_error}
use aleph0_virtualization_hy.Vmcs.Launch.{instruction_error_for}
use aleph0_virtualization_hy.VmxOperation.{VmxOnError}

-- The errors of three allocations.
pub data TssError : Type 0 where
  allocation_failed : TssError

pub data VmExitStackError : Type 0 where
  allocation_failed : VmExitStackError

pub data ExitBitmapsError : Type 0 where
  allocation_failed : ExitBitmapsError

pub data TeardownError : Type 0 where
  vmclear : VmcsError → TeardownError
  vmxoff : VmxFail → TeardownError

pub data BringUpError : Type 0 where
  tss : TssError → BringUpError
  gdt : GdtError → BringUpError
  vm_exit_stack : VmExitStackError → BringUpError
  guest_memory : GuestMemoryError → BringUpError
  exit_bitmaps : ExitBitmapsError → BringUpError
  vmx_not_supported_by_cpu vmx_disabled_by_firmware : BringUpError
  ept : EptError → BringUpError
  vmx_on : VmxOnError → BringUpError
  -- operation, error, VM-instruction error
  vmcs : String → VmcsError → Option ℕ → BringUpError
  -- error, VM-instruction error
  guest_state : GuestStateError → Option ℕ → BringUpError
  host_tables_changed : BringUpError
  -- number, reason
  unexpected_exit : ℕ → ExitReason → BringUpError
  -- error, VM-instruction error
  resume_failed : VmcsError → Option ℕ → BringUpError
  teardown_error : TeardownError → BringUpError

-- `.ok()`.
abbrev pub to_option : Result ℕ VmcsError → Option ℕ
to_option (ok a) = Option.some a
to_option (err e) = none

module _ (cpu : Cpu) (s : Vmcs) where
  -- What `vm_instruction_error` reads now.
  abbrev pub number_now : Option ℕ
  number_now = to_option (instruction_error cpu s).0

  unfoldable pub vmcs_step : String → VmcsError → BringUpError
  vmcs_step operation error = vmcs operation error (instruction_error_for number_now error)

  unfoldable pub guest_state_error : GuestStateError → BringUpError
  guest_state_error (GuestState.vmcs field error) =
      guest_state (GuestState.vmcs field error) (instruction_error_for number_now error)
  guest_state_error error = guest_state error none
