-- ===== src/Vmcs/Launch.antt =====
-- The stop values of src/vmx/vmcs/launch.rs: one u64 that says why the guest stopped.
use aleph0_virtualization_hy.Base.{
  ℕ, ◌-◌, ◌^◌, Option, none, bit_and, bit_or, ◌==◌, u32, shr, shl64, if◌then◌else◌,
}
use aleph0_virtualization_hy.ExitDecision.Types.{ExitReason, from_raw}
use aleph0_virtualization_hy.Vmcs.{VmcsError, vm_fail_valid, launch_failure, resume_failure}

pub data GuestStop : Type 0 where
  -- exits
  finished : ℕ → GuestStop
  -- number, reason
  unexpected : ℕ → ExitReason → GuestStop
  -- error, VM-instruction error
  launch_failed : VmcsError → Option ℕ → GuestStop
  resume_failed : VmcsError → Option ℕ → GuestStop

abbrev pub kind_shift : ℕ
kind_shift = 62

abbrev pub payload_mask : ℕ
payload_mask = 2 ^ kind_shift - 1

abbrev pub kind_launch_failed : ℕ
kind_launch_failed = 0

abbrev pub kind_finished : ℕ
kind_finished = 1

abbrev pub kind_unexpected : ℕ
kind_unexpected = 2

abbrev pub kind_resume_failed : ℕ
kind_resume_failed = 3

abbrev pub exit_number_bits : ℕ
exit_number_bits = 30

abbrev pub exit_number_mask : ℕ
exit_number_mask = 2 ^ exit_number_bits - 1

unfoldable pub encode_finished : ℕ → ℕ
encode_finished exits = bit_or (shl64 kind_finished kind_shift) (bit_and exits payload_mask)

unfoldable pub encode_unexpected : ℕ → ℕ → ℕ
encode_unexpected number raw_reason =
    bit_or (bit_or (shl64 kind_unexpected kind_shift) (shl64 (bit_and number exit_number_mask) 32))
      raw_reason

unfoldable pub encode_resume_failed : ℕ → ℕ
encode_resume_failed rflags =
    bit_or (shl64 kind_resume_failed kind_shift) (bit_and rflags payload_mask)

unfoldable pub decode : ℕ → GuestStop
unfolding launch_failure resume_failure from_raw
decode value =
    let payload = bit_and value payload_mask in
    let kind = shr value kind_shift in
    if kind == kind_launch_failed
    then launch_failed (launch_failure payload) none
    else if kind == kind_finished
    then finished payload
    else if kind == kind_unexpected
    then unexpected (shr payload 32) (from_raw (u32 payload))
    else resume_failed (resume_failure payload) none

-- `instruction_error_for`: `read` is what the current VMCS has.
abbrev pub instruction_error_for : Option ℕ → VmcsError → Option ℕ
instruction_error_for read vm_fail_valid = read
instruction_error_for read error = none

-- `launch`, once `vmx_launch` has returned a stop value.
unfoldable pub launch : Option ℕ → ℕ → GuestStop
unfolding decode
launch read value = elim (decode value) [
  | launch_failed error previous ↦ launch_failed error (instruction_error_for read error)
  | resume_failed error previous ↦ resume_failed error (instruction_error_for read error)
  | stop ↦ stop
]
