-- ===== src/VmExit/Stages.antt =====
-- `prepare_resume` of src/vmx/vmexit/handler.rs, told stage by stage: what is left to do after each.
use aleph0_virtualization_hy.Base.{ℕ, Option}
use aleph0_virtualization_hy.Ept.Support.{InveptType}
use aleph0_virtualization_hy.Ept.Publish.{ProtectedPage}
use aleph0_virtualization_hy.ExitDecision.Types.{ResumePlan}
use aleph0_virtualization_hy.ExitDecision.InterruptionInfo.{nmi}
use aleph0_virtualization_hy.Vmcs.Access.{vmwrite}
use aleph0_virtualization_hy.Vmcs.Fields.Controls.{vm_entry_interruption_info}
use aleph0_virtualization_hy.VmExit.Machine.{Devices, Step, pure, ◌>>=◌}
use aleph0_virtualization_hy.VmExit.Execute.{EmulationOutcome}
use aleph0_virtualization_hy.VmExit.Resume.{
  Resumed, queue_general_protection, emulate_step, advance_step, when, window_step, grant_step,
}

module _ (devices : Devices) (rip : ℕ) (plan : ResumePlan) (page : Option ProtectedPage) where
  abbrev pub interrupt : Step (Unit {0})
  interrupt = when devices plan.inject_nmi (vmwrite devices.cpu vm_entry_interruption_info nmi)

  abbrev pub fault : Step (Unit {0})
  fault = when devices plan.inject_gp (queue_general_protection devices)

  module _ (emulated : Option EmulationOutcome) (to : ℕ) where
    abbrev pub finish : Option InveptType → Step Resumed
    finish invept = pure (record { rip = to; invept = invept; emulated = emulated })

    abbrev pub from_grant : Unit {0} → Step Resumed
    from_grant _ = grant_step devices plan.grant_write page >>= finish

    abbrev pub from_window : Unit {0} → Step Resumed
    from_window _ = window_step devices plan.nmi_window >>= from_grant

    abbrev pub from_fault : Unit {0} → Step Resumed
    from_fault _ = fault >>= from_window

    abbrev pub from_interrupt : Step Resumed
    from_interrupt = interrupt >>= from_fault

  abbrev pub from_advance : Option ℕ → Option EmulationOutcome → Step Resumed
  from_advance by emulated = advance_step devices rip by >>= from_interrupt emulated

  abbrev pub from_emulate : Option ℕ → Step Resumed
  from_emulate by = emulate_step devices plan.emulate >>= from_advance by
