-- ===== src/VmExit/Handler.antt =====
-- `vmexit_handler`, `apply` and `vmresume_failed` of src/vmx/vmexit/handler.rs.
use aleph0_virtualization_hy.Base.{ℕ, ◌+◌, Option, none, some, u64}
use aleph0_virtualization_hy.ExitDecision.Types.{
  ExitEvent, ExitAction, ResumePlan, resume, finished, action, unreadable_reason,
}
use aleph0_virtualization_hy.Vmcs.Launch.{encode_finished, encode_unexpected, encode_resume_failed}
use aleph0_virtualization_hy.VmExit.Machine.{Machine, Kept, Devices}
use aleph0_virtualization_hy.VmExit.State.{judge}
use aleph0_virtualization_hy.VmExit.Reading.{ExitRead, read_exit, unwrap_or}
use aleph0_virtualization_hy.VmExit.Resume.{Resumed, prepare_resume}

abbrev pub resume_guest : ℕ
resume_guest = 0

unfoldable pub stub_return : ExitAction → ℕ → ℕ → ℕ
stub_return (resume plan) number raw_reason = resume_guest
stub_return finished number raw_reason = encode_finished number
stub_return ExitAction.unexpected number raw_reason = encode_unexpected number raw_reason

-- What `apply` makes of the preparation: a guest that cannot go on is stopped.
abbrev pub after_prepare : ResumePlan → Option Resumed → ExitAction
after_prepare plan (some resumed) = resume plan
after_prepare plan none = ExitAction.unexpected

-- `EXIT_COUNT.fetch_add(1) + 1`.
abbrev pub count_exit : Kept → Kept
count_exit kept = record kept { exit_count = u64 (kept.exit_count + 1) }

module _ (devices : Devices) where
  unfoldable pub carry_out : ExitAction → ExitRead → Machine → ExitAction × Machine
  carry_out (resume plan) read m =
      let (prepared, m') = prepare_resume devices read.rip read.length plan read.protected m in
      (after_prepare plan prepared, m')
  carry_out finished read m = (finished, m)
  carry_out ExitAction.unexpected read m = (ExitAction.unexpected, m)

  -- `apply`, less the report.
  unfoldable pub apply : ExitEvent → ExitRead → Machine → ExitAction × Machine
  apply event read m = carry_out (action event) read m

  -- `vmexit_handler`: what it returns to the entry stub, and the machine it leaves.
  unfoldable pub vmexit_handler : Machine → ℕ × Machine
  vmexit_handler m =
      let number = u64 (m.kept.exit_count + 1) in
      let counted = record m { kept = count_exit m.kept } in
      let read = read_exit devices counted in
      let ((event, next), stored) = judge read.exit counted.kept in
      let (act, m') = apply event read (record counted { kept = stored }) in
      (stub_return act number (unwrap_or unreadable_reason read.raw_reason), m')

-- `vmresume_failed`, less the report.
unfoldable pub vmresume_failed : ℕ → ℕ
vmresume_failed rflags = encode_resume_failed rflags
