-- ===== src/VmExit/Unchanged.antt =====
-- What the steps of src/vmx/vmexit/handler.rs leave alone: each is told by a view of the machine.
use aleph0_virtualization_hy.Base.{
  ℕ, ◌≡◌, inl, inr, refl, ap, ◌∙◌, Bool, true, false, ◌||◌, Option, none, some, Option-cases,
  Result-cases, ◌==◌,
}
use aleph0_virtualization_hy.ExitDecision.Types.{
  Emulation, ResumePlan, ExitAction, resume, finished,
}
use aleph0_virtualization_hy.Ept.Publish.{ProtectedPage}
use aleph0_virtualization_hy.ExitDecision.InterruptionInfo.{nmi}
use aleph0_virtualization_hy.Vmcs.Access
use aleph0_virtualization_hy.Vmcs.Access.{
  Action, Vmcs, write_field, vmread, vmwrite, with_nmi_window_exiting, set_nmi_window_exiting,
}
use aleph0_virtualization_hy.Vmcs.Writes.{flags-cases, vmwrite-ok, vmwrite-err}
use aleph0_virtualization_hy.Vmcs.Fields.Controls.{
  primary_vm_exec_control, vm_entry_interruption_info, vm_entry_exception_error_code,
}
use aleph0_virtualization_hy.Vmcs.Fields.Guest.{guest_rip}
use aleph0_virtualization_hy.VmExit.Machine.{Machine, Devices, Step, and_then, ◌>>=◌, on_vmcs}
use aleph0_virtualization_hy.VmExit.Execute.{EmulationOutcome, execute}
use aleph0_virtualization_hy.VmExit.Reading.{ExitRead}
use aleph0_virtualization_hy.VmExit.Resume.{
  queue_general_protection, emulate_step, length_step, advance_step, when, window_step, grant_page,
  grant_step, prepare_resume,
}
use aleph0_virtualization_hy.VmExit.Stages.{
  interrupt, fault, finish, from_grant, from_window, from_fault, from_interrupt, from_advance,
  from_emulate,
}
use aleph0_virtualization_hy.VmExit.Handler.{carry_out}

-- A step after which the view of the machine is what it was.
abbrev pub Leaves : {A X : Type 0} → (Machine → X) → Step A → Type 0
Leaves view step = (m : Machine) → view (step m).1 ≡ view m

-- The fields of the VMCS that the handler writes.
abbrev pub is_written_field : ℕ → Bool
is_written_field field =
    (field == guest_rip)
    || ((field == vm_entry_interruption_info)
        || ((field == vm_entry_exception_error_code) || (field == primary_vm_exec_control)))

-- A view that does not show what the preparation of a resume may change.
pub record IsBlind {X : Type 0} (devices : Devices) (view : Machine → X) : Type 0 where
  pub writes :
      (m : Machine) (field value : ℕ)
      → is_written_field field ≡ true
      → view (record m { vmcs = write_field m.vmcs field value }) ≡ view m
  pub memory : (m : Machine) (memory : ℕ → ℕ) → view (record m { memory = memory }) ≡ view m
  pub emulates :
      (m : Machine) (emulation : Emulation) → view (execute devices emulation m).1 ≡ view m

module _ {X : Type 0} (view : Machine → X) where
  pub Leaves-bind :
      {A B : Type 0} (step : Step A) (f : A → Step B)
      → Leaves view step
      → ((a : A) → Leaves view (f a))
      → Leaves view (step >>= f)
  Leaves-bind step f h g m = elim (Option-cases (step m).0) [
    | inl e ↦ ap (λ o. view (and_then (o, (step m).1) f).1) e ∙ h m
    | inr (a, e) ↦ ap (λ o. view (and_then (o, (step m).1) f).1) e ∙ g a (step m).1 ∙ h m
  ]

  Leaves-on_vmcs :
      {A B : Type 0} (action : Action A) (k : A → Action B)
      → Leaves view (on_vmcs action)
      → ((a : A) → Leaves view (on_vmcs (k a)))
      → Leaves view (on_vmcs (Access.◌>>=◌ action k))
  Leaves-on_vmcs action k h g m = elim (Result-cases (action m.vmcs).0) [
    | inl (a, e) ↦
        ap (λ r. view (record m { vmcs = (Access.and_then (r, (action m.vmcs).1) k).1 })) e
        ∙ g a (record m { vmcs = (action m.vmcs).1 })
        ∙ h m
    | inr (x, e) ↦
        ap (λ r. view (record m { vmcs = (Access.and_then (r, (action m.vmcs).1) k).1 })) e ∙ h m
  ]

  module _ (devices : Devices) (blind : IsBlind devices view) where
    Leaves-vmread : (field : ℕ) → Leaves view (on_vmcs (vmread devices.cpu field))
    unfolding vmread
    Leaves-vmread field m = refl

    Leaves-vmwrite :
        (field value : ℕ)
        → is_written_field field ≡ true
        → Leaves view (on_vmcs (vmwrite devices.cpu field value))
    Leaves-vmwrite field value h m = elim (flags-cases (devices.cpu.write_flags field)) [
      | inl done ↦
          ap (λ r. view (record m { vmcs = r.1 })) (vmwrite-ok devices.cpu field m.vmcs value done)
          ∙ blind.writes m field (devices.cpu.kept field value) h
      | inr (e, failed) ↦
          ap (λ r. view (record m { vmcs = r.1 }))
            (vmwrite-err devices.cpu field m.vmcs value e failed)
    ]

    Leaves-when :
        (wanted : Bool) (action : Action (Unit {0}))
        → Leaves view (on_vmcs action)
        → Leaves view (when devices wanted action)
    unfolding when
    Leaves-when true action h = h
    Leaves-when false action h = λ m. refl

    Leaves-queue : Leaves view (on_vmcs (queue_general_protection devices))
    unfolding queue_general_protection
    Leaves-queue =
        Leaves-on_vmcs _ _ (Leaves-vmwrite vm_entry_exception_error_code _ refl)
          (λ _. Leaves-vmwrite vm_entry_interruption_info _ refl)

    Leaves-window : (window : Option Bool) → Leaves view (window_step devices window)
    unfolding window_step set_nmi_window_exiting
    Leaves-window (some on) =
        Leaves-on_vmcs (vmread devices.cpu primary_vm_exec_control) _
          (Leaves-vmread primary_vm_exec_control)
          (λ primary.
            Leaves-vmwrite primary_vm_exec_control (with_nmi_window_exiting primary on) refl)
    Leaves-window none = λ m. refl

    Leaves-length :
        (advance : Bool) (length : Option ℕ) → Leaves view (length_step devices advance length)
    unfolding length_step
    Leaves-length true (some length) m = refl
    Leaves-length true none m = refl
    Leaves-length false length m = refl

    Leaves-emulate : (emulation : Option Emulation) → Leaves view (emulate_step devices emulation)
    unfolding emulate_step
    Leaves-emulate (some emulation) m = blind.emulates m emulation
    Leaves-emulate none m = refl

    Leaves-advance : (rip : ℕ) (length : Option ℕ) → Leaves view (advance_step devices rip length)
    unfolding advance_step
    Leaves-advance rip (some length) =
        Leaves-bind _ _ (Leaves-vmwrite guest_rip _ refl) (λ _ m. refl)
    Leaves-advance rip none = λ m. refl

    Leaves-grant_page : (page : ProtectedPage) → Leaves view (grant_page devices page)
    unfolding grant_page
    Leaves-grant_page page m = blind.memory m _

    Leaves-grant :
        (grant : Bool) (page : Option ProtectedPage) → Leaves view (grant_step devices grant page)
    unfolding grant_step
    Leaves-grant true (some page) = Leaves-bind _ _ (Leaves-grant_page page) (λ _ m. refl)
    Leaves-grant true none = λ m. refl
    Leaves-grant false page = λ m. refl

    module _ (rip : ℕ) (plan : ResumePlan) (page : Option ProtectedPage)
        (emulated : Option EmulationOutcome) (to : ℕ) where
      pub Leaves-from_grant : Leaves view (from_grant devices rip plan page emulated to tt)
      Leaves-from_grant =
          Leaves-bind (grant_step devices plan.grant_write page)
            (finish devices rip plan page emulated to) (Leaves-grant plan.grant_write page)
            (λ invept m. refl)

      Leaves-from_interrupt : Leaves view (from_interrupt devices rip plan page emulated to)
      Leaves-from_interrupt =
          Leaves-bind (interrupt devices rip plan page)
            (from_fault devices rip plan page emulated to)
            (Leaves-when plan.inject_nmi _ (Leaves-vmwrite vm_entry_interruption_info nmi refl))
            (λ _.
              Leaves-bind (fault devices rip plan page)
                (from_window devices rip plan page emulated to)
                (Leaves-when plan.inject_gp _ Leaves-queue)
                (λ _.
                  Leaves-bind (window_step devices plan.nmi_window)
                    (from_grant devices rip plan page emulated to) (Leaves-window plan.nmi_window)
                    (λ _. Leaves-from_grant)))

    pub Leaves-prepare_resume :
        (rip length : Option ℕ) (plan : ResumePlan) (page : Option ProtectedPage)
        → Leaves view (prepare_resume devices rip length plan page)
    unfolding prepare_resume
    Leaves-prepare_resume none length plan page = λ m. refl
    Leaves-prepare_resume (some rip) length plan page =
        Leaves-bind (length_step devices plan.advance_rip length)
          (from_emulate devices rip plan page) (Leaves-length plan.advance_rip length)
          (λ by.
            Leaves-bind (emulate_step devices plan.emulate) (from_advance devices rip plan page by)
              (Leaves-emulate plan.emulate)
              (λ emulated.
                Leaves-bind (advance_step devices rip by)
                  (from_interrupt devices rip plan page emulated) (Leaves-advance rip by)
                  (Leaves-from_interrupt rip plan page emulated)))

    pub Leaves-carry_out :
        (act : ExitAction) (read : ExitRead) (m : Machine)
        → view (carry_out devices act read m).1 ≡ view m
    unfolding carry_out
    Leaves-carry_out (resume plan) read m =
        Leaves-prepare_resume read.rip read.length plan read.protected m
    Leaves-carry_out finished read m = refl
    Leaves-carry_out ExitAction.unexpected read m = refl
