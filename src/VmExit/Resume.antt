-- ===== src/VmExit/Resume.antt =====
-- `prepare_resume` of src/vmx/vmexit/handler.rs: the VMCS, the EPT and the registers as the plan says.
use aleph0_virtualization_hy.Base.{ℕ, ◌+◌, Bool, Option, none, some, u64, if◌then◌else◌}
use aleph0_virtualization_hy.Vmcs.Access.{Action, vmwrite, set_nmi_window_exiting}
use aleph0_virtualization_hy.Vmcs.Access
use aleph0_virtualization_hy.Vmcs.Fields.Controls.{
  vm_entry_interruption_info, vm_entry_exception_error_code,
}
use aleph0_virtualization_hy.Vmcs.Fields.Guest.{guest_rip}
use aleph0_virtualization_hy.Ept.Support.{InveptType}
use aleph0_virtualization_hy.Ept.Publish
use aleph0_virtualization_hy.Ept.Publish.{ProtectedPage}
use aleph0_virtualization_hy.ExitDecision.Types.{Emulation, ResumePlan}
use aleph0_virtualization_hy.ExitDecision.InterruptionInfo.{nmi, general_protection}
use aleph0_virtualization_hy.VmExit.Machine.{
  Devices, Step, pure, or_give_up, ◌>>=◌, ◌>>◌, to_option, on_vmcs,
}
use aleph0_virtualization_hy.VmExit.Execute.{EmulationOutcome, execute}

pub record Resumed : Type 0 where
  pub rip : ℕ
  pub invept : Option InveptType
  pub emulated : Option EmulationOutcome

module _ (devices : Devices) where
  unfoldable pub queue_general_protection : Action (Unit {0})
  queue_general_protection =
      Access.◌>>◌ (vmwrite devices.cpu vm_entry_exception_error_code 0)
        (vmwrite devices.cpu vm_entry_interruption_info general_protection)

  -- `emulate.map(|emulation| execute(emulation, frame))`.
  unfoldable pub emulate_step : Option Emulation → Step (Option EmulationOutcome)
  emulate_step none m = (some none, m)
  emulate_step (some emulation) m =
      let (outcome, m') = execute devices emulation m in (some (some outcome), m')

  -- The length to move RIP by, if the plan moves it.
  unfoldable pub length_step : Bool → Option ℕ → Step (Option ℕ)
  length_step advance_rip length =
      if advance_rip then (do known ← or_give_up length; pure (some known)) else pure none

  unfoldable pub advance_step : ℕ → Option ℕ → Step ℕ
  advance_step rip (some length) = do
    on_vmcs (vmwrite devices.cpu guest_rip (u64 (rip + length)))
    pure (u64 (rip + length))
  advance_step rip none = pure rip

  unfoldable pub when : Bool → Action (Unit {0}) → Step (Unit {0})
  when wanted action = if wanted then on_vmcs action else pure tt

  unfoldable pub window_step : Option Bool → Step (Unit {0})
  window_step (some on) = on_vmcs (set_nmi_window_exiting devices.cpu on)
  window_step none = pure tt

  -- `page.grant_write()`.
  unfoldable pub grant_page : ProtectedPage → Step InveptType
  grant_page page m =
      let (memory, result) = Publish.grant_write devices.invept page m.memory in
      (to_option result, record m { memory = memory })

  unfoldable pub grant_step : Bool → Option ProtectedPage → Step (Option InveptType)
  grant_step grant_write protected =
      if grant_write
      then (do page ← or_give_up protected; invept ← grant_page page; pure (some invept))
      else pure none

  unfoldable pub prepare_resume :
      Option ℕ → Option ℕ → ResumePlan → Option ProtectedPage → Step Resumed
  prepare_resume rip length plan protected = do
    known_rip ← or_give_up rip
    advance_by ← length_step plan.advance_rip length
    emulated ← emulate_step plan.emulate
    resume_rip ← advance_step known_rip advance_by
    when plan.inject_nmi (vmwrite devices.cpu vm_entry_interruption_info nmi)
    when plan.inject_gp queue_general_protection
    window_step plan.nmi_window
    invept ← grant_step plan.grant_write protected
    pure (record { rip = resume_rip; invept = invept; emulated = emulated })
