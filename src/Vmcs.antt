-- ===== src/Vmcs.antt =====
-- `VmcsError` of src/vmx/vmcs/mod.rs, and how a VMLAUNCH or VMRESUME that falls through is named. The
-- children are src/vmx/vmcs/launch.rs.
use aleph0_virtualization_hy.Base.{ℕ, Result, ok, err}
use aleph0_virtualization_hy.Instruction.{VmxFail, invalid, valid, check_rflags}
pub mod Fields
pub mod Access
pub mod Controls
pub mod Writes
pub mod Configured
pub mod Choosable
pub mod Launch
pub mod StopValue
pub mod Window
pub mod Distinct
pub mod Manual
pub mod HostState
pub mod HostChecked

pub data VmcsError : Type 0 where
  allocation_failed vm_fail_invalid vm_fail_valid unsupported_control_value : VmcsError
  readback_mismatch : ℕ → ℕ → ℕ → VmcsError
  host_state_validation launch_returned resume_returned : VmcsError
  nmi_window_exiting_unsupported : VmcsError

-- `impl From<VmxFail> for VmcsError`.
abbrev pub from_fail : VmxFail → VmcsError
from_fail invalid = vm_fail_invalid
from_fail valid = vm_fail_valid

-- The match of `fall_through_failure`.
abbrev pub failure_or : VmcsError → Result (Unit {0}) VmxFail → VmcsError
failure_or clear (err fail) = from_fail fail
failure_or clear (ok done) = clear

unfoldable pub fall_through_failure : ℕ → VmcsError → VmcsError
unfolding check_rflags
fall_through_failure rflags clear = failure_or clear (check_rflags rflags)

unfoldable pub launch_failure : ℕ → VmcsError
unfolding fall_through_failure
launch_failure rflags = fall_through_failure rflags launch_returned

unfoldable pub resume_failure : ℕ → VmcsError
unfolding fall_through_failure
resume_failure rflags = fall_through_failure rflags resume_returned
