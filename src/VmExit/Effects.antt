-- ===== src/VmExit/Effects.antt =====
-- What `prepare_resume` of src/vmx/vmexit/handler.rs makes of the VMCS, on a CPU on which VMREAD and
-- VMWRITE succeed.
pub mod Planned
use aleph0_virtualization_hy.Base.{
  ℕ, ◌+◌, ◌*◌, ◌/◌, ◌%◌, ◌^◌, ◌<◌, ◌≡◌, ◌⊎◌, inl, inr, refl, sym, ap, ◌∙◌, subst, Bool, true, false,
  Option, none, some, arith, u64, if◌then◌else◌, ok,
}
use aleph0_virtualization_hy.ExitDecision.Types.{ResumePlan, Emulation}
use aleph0_virtualization_hy.ExitDecision.InterruptionInfo.{nmi, general_protection}
use aleph0_virtualization_hy.Ept.Publish.{ProtectedPage}
use aleph0_virtualization_hy.Vmcs.Access.{
  Vmcs, Action, write_field, vmread, vmwrite, with_nmi_window_exiting, set_nmi_window_exiting,
}
use aleph0_virtualization_hy.Vmcs.Access
use aleph0_virtualization_hy.Vmcs.Writes.{IsWorking, field_limit, vmread-ok, vmwrite-ok}
use aleph0_virtualization_hy.Vmcs.Writes
use aleph0_virtualization_hy.Vmcs.Window.{with_nmi_window_exiting_lem, with_nmi_window_exiting-u32}
use aleph0_virtualization_hy.Vmcs.Fields.Controls.{
  primary_vm_exec_control, vm_entry_interruption_info, vm_entry_exception_error_code,
}
use aleph0_virtualization_hy.Vmcs.Fields.Guest.{guest_rip}
use aleph0_virtualization_hy.VmExit.Machine.{
  Machine, Devices, Step, pure, and_then, ◌>>=◌, to_option, on_vmcs,
}
use aleph0_virtualization_hy.VmExit.Execute.{EmulationOutcome, execute}
use aleph0_virtualization_hy.VmExit.Resume.{
  queue_general_protection, emulate_step, length_step, advance_step, when, window_step, grant_page,
  grant_step, prepare_resume,
}
use aleph0_virtualization_hy.VmExit.Unchanged.{Leaves-bind}
use aleph0_virtualization_hy.VmExit.Stages.{
  finish, interrupt, fault, from_grant, from_window, from_fault, from_interrupt, from_advance,
  from_emulate,
}
use Planned.{
  write_if, with_window, moved, with_fault, with_event, event_fields, moved_fields, moved_primary,
  window_fields, window_controls, window_primary,
}

abbrev with_vmcs : Machine → Vmcs → Machine
with_vmcs m s = record m { vmcs = s }

goes :
    {A B : Type 0} (step : Step A) (f : A → Step B) (a : A) (m m' : Machine)
    → step m ≡ (some a, m')
    → (step >>= f) m ≡ f a m'
goes step f a m m' h = ap (λ r. and_then r f) h

module _ (devices : Devices) (works : IsWorking devices.cpu) where
  wrote :
      (field value : ℕ) (s : Vmcs)
      → value < field_limit field
      → vmwrite devices.cpu field value s ≡ (ok tt, write_field s field value)
  wrote field value s fits =
      vmwrite-ok devices.cpu field s value (works.writes field)
      ∙ ap (λ (v : ℕ). (ok tt, write_field s field v)) (works.keeps field value fits)

  on_vmcs-ok :
      (action : Action (Unit {0})) (m : Machine) (s : Vmcs)
      → action m.vmcs ≡ (ok tt, s)
      → on_vmcs action m ≡ (some tt, with_vmcs m s)
  on_vmcs-ok action m s h = ap (λ r. (to_option r.0, with_vmcs m r.1)) h

  when-ok :
      (wanted : Bool) (action : Action (Unit {0})) (m : Machine) (s : Vmcs)
      → action m.vmcs ≡ (ok tt, s)
      → when devices wanted action m ≡ (some tt, with_vmcs m (if wanted then s else m.vmcs))
  unfolding when
  when-ok true action m s h = on_vmcs-ok action m s h
  when-ok false action m s h = refl

  queue-ok :
      (s : Vmcs)
      → queue_general_protection devices s ≡ (
        ok tt,
        write_field
            (write_field s vm_entry_exception_error_code 0)
            vm_entry_interruption_info
            general_protection,
      )
  unfolding queue_general_protection
  queue-ok s =
      Writes.bind-ok (vmwrite devices.cpu vm_entry_exception_error_code 0)
        (λ _. vmwrite devices.cpu vm_entry_interruption_info general_protection) s
        (write_field s vm_entry_exception_error_code 0) tt
        (wrote vm_entry_exception_error_code 0 s (omega arith))
      ∙ wrote vm_entry_interruption_info general_protection _ (omega arith)

  window-ok :
      (window : Option Bool) (m : Machine)
      → m.vmcs primary_vm_exec_control < 2 ^ 32
      → window_step devices window m ≡ (some tt, with_vmcs m (with_window window m.vmcs))
  unfolding window_step set_nmi_window_exiting
  window-ok none m fits = refl
  window-ok (some on) m fits =
      let primary = m.vmcs primary_vm_exec_control in
      on_vmcs-ok (set_nmi_window_exiting devices.cpu on) m _ (
        Writes.bind-ok (vmread devices.cpu primary_vm_exec_control)
          (λ p. vmwrite devices.cpu primary_vm_exec_control (with_nmi_window_exiting p on)) m.vmcs
          m.vmcs primary
          (vmread-ok devices.cpu primary_vm_exec_control m.vmcs
            (works.reads primary_vm_exec_control))
        ∙ wrote primary_vm_exec_control (with_nmi_window_exiting primary on) m.vmcs
            (with_nmi_window_exiting-u32 primary on fits))

  advance-ok :
      (rip : ℕ) (by : Option ℕ) (m : Machine)
      → (to : ℕ) × (advance_step devices rip by m ≡ (some to, with_vmcs m (moved rip by m.vmcs)))
  unfolding advance_step
  advance-ok rip none m = (rip, refl)
  advance-ok rip (some length) m = (
    u64 (rip + length),
    goes (on_vmcs (vmwrite devices.cpu guest_rip (u64 (rip + length))))
        (λ _ m'. (some (u64 (rip + length)), m')) tt m
        (with_vmcs m (write_field m.vmcs guest_rip (u64 (rip + length))))
        (on_vmcs-ok (vmwrite devices.cpu guest_rip (u64 (rip + length))) m _
          (wrote guest_rip (u64 (rip + length)) m.vmcs (omega arith))),
  )

  execute-vmcs :
      (emulation : Emulation) (m : Machine) → (execute devices emulation m).1.vmcs ≡ m.vmcs
  unfolding execute
  execute-vmcs (Emulation.cpuid leaf subleaf) m = refl
  execute-vmcs (Emulation.rdmsr msr) m = refl
  execute-vmcs (Emulation.wrmsr msr value) m = refl
  execute-vmcs (Emulation.io_in port size) m = refl
  execute-vmcs (Emulation.io_out port size value) m = refl

  emulate-ok :
      (emulation : Option Emulation) (m : Machine)
      → (o : Option EmulationOutcome) × (m' : Machine) × (emulate_step devices emulation m
          ≡ (some o, m'))
        × (m'.vmcs ≡ m.vmcs)
  unfolding emulate_step
  emulate-ok none m = (none, m, refl, refl)
  emulate-ok (some e) m =
      (some (execute devices e m).0, (execute devices e m).1, refl, execute-vmcs e m)

  grant_step-vmcs :
      (grant : Bool) (page : Option ProtectedPage) (m : Machine)
      → (grant_step devices grant page m).1.vmcs ≡ m.vmcs
  unfolding grant_step grant_page
  grant_step-vmcs true (some page) m =
      Leaves-bind (λ x. x.vmcs) (grant_page devices page) (λ invept. pure (some invept)) (λ x. refl)
        (λ invept x. refl) m
  grant_step-vmcs true none m = refl
  grant_step-vmcs false page m = refl

  granted-vmcs :
      (rip : ℕ) (plan : ResumePlan) (page : Option ProtectedPage) (o : Option EmulationOutcome)
      (to : ℕ) (m : Machine)
      → (from_grant devices rip plan page o to tt m).1.vmcs ≡ m.vmcs
  granted-vmcs rip plan page o to m =
      Leaves-bind (λ x. x.vmcs) (grant_step devices plan.grant_write page)
        (finish devices rip plan page o to) (grant_step-vmcs plan.grant_write page)
        (λ invept x. refl) m

  staged :
      (plan : ResumePlan) (page : Option ProtectedPage) (rip : ℕ) (by : Option ℕ) (m : Machine)
      → m.vmcs primary_vm_exec_control < 2 ^ 32
      → (from_emulate devices rip plan page by m).1.vmcs
        ≡ with_window plan.nmi_window
            (with_event plan.inject_nmi plan.inject_gp (moved rip by m.vmcs))
  staged plan page rip by m fits =
      let (o, m1, e1, v1) = emulate-ok plan.emulate m in
      let (to, e2) = advance-ok rip by m1 in
      let m2 = with_vmcs m1 (moved rip by m1.vmcs) in
      let s3 = write_if plan.inject_nmi m2.vmcs vm_entry_interruption_info nmi in
      let m3 = with_vmcs m2 s3 in
      let m4 = with_vmcs m3 (with_fault plan.inject_gp s3) in
      let m5 = with_vmcs m4 (with_window plan.nmi_window m4.vmcs) in
      let small : m4.vmcs primary_vm_exec_control < 2 ^ 32 =
        subst (λ (x : ℕ). x < 2 ^ 32)
          (sym (
            (event_fields plan.inject_nmi plan.inject_gp (moved rip by m1.vmcs)).3
            ∙ moved_primary rip by m1.vmcs
            ∙ ap (λ (s : Vmcs). s primary_vm_exec_control) v1))
          fits in
      let e : from_emulate devices rip plan page by m
          ≡ from_grant devices rip plan page o to tt m5 =
        goes (emulate_step devices plan.emulate) (from_advance devices rip plan page by) o m m1 e1
        ∙ goes (advance_step devices rip by) (from_interrupt devices rip plan page o) to m1 m2 e2
        ∙ goes (interrupt devices rip plan page) (from_fault devices rip plan page o to) tt m2 m3 (
            when-ok plan.inject_nmi _ m2 _
              (wrote vm_entry_interruption_info nmi m2.vmcs (omega arith)))
        ∙ goes (fault devices rip plan page) (from_window devices rip plan page o to) tt m3 m4
            (when-ok plan.inject_gp _ m3 _ (queue-ok s3))
        ∙ goes (window_step devices plan.nmi_window) (from_grant devices rip plan page o to) tt m4
            m5 (window-ok plan.nmi_window m4 small) in
      ap (λ r. r.1.vmcs) e
      ∙ granted-vmcs rip plan page o to m5
      ∙ ap
          (λ (s : Vmcs).
            with_window plan.nmi_window
              (with_event plan.inject_nmi plan.inject_gp (moved rip by s)))
          v1

  length-ok :
      (advance : Bool) (n : ℕ) (length : Option ℕ) (m : Machine)
      → (advance ≡ false) ⊎ (length ≡ some n)
      → length_step devices advance length m ≡ (some (if advance then length else none), m)
  unfolding length_step
  length-ok true n (some k) m h = refl
  length-ok true n none m (inl e) = absurd cc
  length-ok true n none m (inr e) = absurd cc
  length-ok false n length m h = refl

  prepared-vmcs :
      (plan : ResumePlan) (page : Option ProtectedPage) (rip n : ℕ) (length : Option ℕ)
      (m : Machine)
      → m.vmcs primary_vm_exec_control < 2 ^ 32
      → (plan.advance_rip ≡ false) ⊎ (length ≡ some n)
      → (prepare_resume devices (some rip) length plan page m).1.vmcs
        ≡ with_window plan.nmi_window (
            with_event plan.inject_nmi plan.inject_gp
              (moved rip (if plan.advance_rip then length else none) m.vmcs))
  unfolding prepare_resume
  prepared-vmcs plan page rip n length m fits known =
      ap (λ r. r.1.vmcs)
        (goes (length_step devices plan.advance_rip length) (from_emulate devices rip plan page) _ m
          m (length-ok plan.advance_rip n length m known))
      ∙ staged plan page rip (if plan.advance_rip then length else none) m fits

-- On a CPU on which VMREAD and VMWRITE succeed, with GUEST_RIP read, and the instruction's length too
-- if the plan moves RIP: afterwards RIP has moved by the length, if the plan says so; the event to
-- inject is #GP(0), with error code 0, or the NMI, as the plan says; bit 22 of the primary controls,
-- which hold a u32, is as the plan says, and their other bits are what they were.
pub prepare_resume-vmcs :
    (devices : Devices) (plan : ResumePlan) (page : Option ProtectedPage) (rip n : ℕ)
    (length : Option ℕ) (m : Machine)
    → IsWorking devices.cpu
    → m.vmcs primary_vm_exec_control < 2 ^ 32
    → (plan.advance_rip ≡ false) ⊎ (length ≡ some n)
    → let after : Vmcs = (prepare_resume devices (some rip) length plan page m).1.vmcs in
      (after guest_rip ≡ (if plan.advance_rip then u64 (rip + n) else m.vmcs guest_rip))
      × (after vm_entry_interruption_info ≡ (
          if plan.inject_gp
          then general_protection
          else if plan.inject_nmi
          then nmi
          else m.vmcs vm_entry_interruption_info))
      × (after vm_entry_exception_error_code
          ≡ (if plan.inject_gp then 0 else m.vmcs vm_entry_exception_error_code))
      × (after primary_vm_exec_control
          ≡ window_controls plan.nmi_window (m.vmcs primary_vm_exec_control))
prepare_resume-vmcs devices plan page rip n length m works fits known =
    let e = prepared-vmcs devices works plan page rip n length m fits known in
    let s1 = moved rip (if plan.advance_rip then length else none) m.vmcs in
    let s2 = with_event plan.inject_nmi plan.inject_gp s1 in
    let (w1, w2, w3) = window_fields plan.nmi_window s2 in
    let (e1, e2, e3, e4) = event_fields plan.inject_nmi plan.inject_gp s1 in
    let (m1, m2, m3, m4) = moved_fields plan.advance_rip rip n length m.vmcs known in
    (
      ap (λ (s : Vmcs). s guest_rip) e ∙ w1 ∙ e1 ∙ m1,
      ap (λ (s : Vmcs). s vm_entry_interruption_info) e
          ∙ w2
          ∙ e2
          ∙ ap
              (λ (x : ℕ).
                if plan.inject_gp then general_protection else if plan.inject_nmi then nmi else x)
              m2,
      ap (λ (s : Vmcs). s vm_entry_exception_error_code) e
          ∙ w3
          ∙ e3
          ∙ ap (λ (x : ℕ). if plan.inject_gp then 0 else x) m3,
      ap (λ (s : Vmcs). s primary_vm_exec_control) e
          ∙ window_primary plan.nmi_window s2 (subst (λ (x : ℕ). x < 2 ^ 32) (sym (e4 ∙ m4)) fits)
          ∙ ap (window_controls plan.nmi_window) (e4 ∙ m4),
    )
