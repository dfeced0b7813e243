-- ===== src/VmExit/Finish.antt =====
-- The end of a run: what the stop value of `vmexit_handler` in src/vmx/vmexit/handler.rs lets bring-up
-- conclude.
use aleph0_virtualization_hy.Base.{
  ℕ, ◌+◌, ◌%◌, ◌^◌, ◌<◌, ◌≡◌, inl, inr, refl, sym, ap, ◌∙◌, subst, Bool, true, false, ◌||◌, ◌≢◌,
  Option, none, some, List, length, arith, if◌then◌else◌,
}
use aleph0_virtualization_hy.Guest.{guest_marker}
use aleph0_virtualization_hy.ExitDecision.Types.{
  ExitInfo, ExitReason, IsWord, ExitState, ExitEvent, ExitAction, resume, finished, action,
  last_main_vmcall, ResumePlan, from_raw,
}
use aleph0_virtualization_hy.ExitDecision.Decide.{decide}
use aleph0_virtualization_hy.ExitDecision.Session.{Session}
use aleph0_virtualization_hy.ExitDecision.Finish.{IsComplete, finished-IsComplete}
use aleph0_virtualization_hy.Ept.Publish.{ProtectedPage, protected_page}
use aleph0_virtualization_hy.Vmcs.Writes.{flags-cases, vmread-ok, vmread-err}
use aleph0_virtualization_hy.Vmcs.Launch
use aleph0_virtualization_hy.Vmcs.Launch.{GuestStop, decode}
use aleph0_virtualization_hy.Vmcs.StopValue.{decode-finished, decode_unexpected}
use aleph0_virtualization_hy.VmExit.Machine.{Machine, Devices, RegisterFrame, to_option}
use aleph0_virtualization_hy.VmExit.State.{load_state, judged}
use aleph0_virtualization_hy.VmExit.Reading.{
  ExitRead, read_exit, read_or_report, exit_info, low_32, reason_of, unwrap_or, is_some_and,
  is_ept_exit, is_io_exit,
}
use aleph0_virtualization_hy.Vmcs.Fields.Exits.{
  vm_exit_reason, vm_exit_interruption_info, idt_vectoring_info, exit_qualification,
  guest_physical_address,
}
use aleph0_virtualization_hy.Vmcs.Fields.Guest.{guest_interruptibility_state}
use aleph0_virtualization_hy.VmExit.Resume.{Resumed}
use aleph0_virtualization_hy.VmExit.Handler.{
  resume_guest, stub_return, after_prepare, carry_out, vmexit_handler,
}
use aleph0_virtualization_hy.VmExit.Handled.{counted, vmexit_handler-value, raw_reason-u32, outcome}
use aleph0_virtualization_hy.VmExit.Runs.{Run, Run-Session}

-- A register or a field of the VMCS that an exit takes over holds a u64.
pub record IsMachineWord (m : Machine) : Type 0 where
  pub rax : m.frame.rax < 2 ^ 64
  pub rcx : m.frame.rcx < 2 ^ 64
  pub rdx : m.frame.rdx < 2 ^ 64
  pub fields : (field : ℕ) → m.vmcs field < 2 ^ 64

read_or_report-u64 :
    (devices : Devices) (m : Machine) (field v : ℕ)
    → IsMachineWord m
    → read_or_report devices m field ≡ some v
    → v < 2 ^ 64
unfolding read_or_report
read_or_report-u64 devices m field v word h = elim (flags-cases (devices.cpu.read_flags field)) [
  | inl done ↦
      let e : some (m.vmcs field) ≡ some v =
        sym (ap (λ r. to_option r.0) (vmread-ok devices.cpu field m.vmcs done)) ∙ h in
      let same : m.vmcs field ≡ v = cc in subst (λ x. x < 2 ^ 64) same (word.fields field)
  | inr (x, failed) ↦
      let e : none ≡ some v =
        sym (ap (λ r. to_option r.0) (vmread-err devices.cpu field m.vmcs x failed)) ∙ h in
      absurd cc
]

of_some : (P : ExitInfo → Type 0) (x e : ExitInfo) → some x ≡ some e → P x → P e
of_some P x e h p = let same : x ≡ e = cc in subst P same p

-- What an exit that was read takes from the frame and from the guest-physical address.
exit_info-inv :
    (frame : RegisterFrame) (page : Option ProtectedPage) (reason : Option ExitReason)
    (info blocking vectoring qualification physical : Option ℕ) (e : ExitInfo)
    → exit_info frame page reason info blocking vectoring qualification physical ≡ some e
    → (e.guest_rax ≡ frame.rax)
      × (e.guest_rcx ≡ frame.rcx)
      × (e.guest_rdx ≡ frame.rdx)
      × (physical ≡ some e.guest_physical)
exit_info-inv frame page none info blocking vectoring qualification physical e h = absurd cc
exit_info-inv frame page (some r) none blocking vectoring qualification physical e h = absurd cc
exit_info-inv frame page (some r) (some i) none vectoring qualification physical e h = absurd cc
exit_info-inv frame page (some r) (some i) (some b) none qualification physical e h = absurd cc
exit_info-inv frame page (some r) (some i) (some b) (some v) none physical e h = absurd cc
exit_info-inv frame page (some r) (some i) (some b) (some v) (some q) none e h = absurd cc
exit_info-inv frame page (some r) (some i) (some b) (some v) (some q) (some g) e h =
    of_some
      (λ x.
        (x.guest_rax ≡ frame.rax)
        × (x.guest_rcx ≡ frame.rcx)
        × (x.guest_rdx ≡ frame.rdx)
        × (some g ≡ some x.guest_physical))
      _ e h (refl, refl, refl, refl)

physical-u64 :
    (devices : Devices) (m : Machine) (is_ept : Bool) (field v : ℕ)
    → IsMachineWord m
    → (if is_ept then read_or_report devices m field else some 0) ≡ some v
    → v < 2 ^ 64
physical-u64 devices m true field v word h = read_or_report-u64 devices m field v word h
physical-u64 devices m false field v word h = let e : 0 ≡ v = cc in omega arith

read_exit-IsWord :
    (devices : Devices) (m : Machine) (e : ExitInfo)
    → IsMachineWord m
    → (read_exit devices m).exit ≡ some e
    → IsWord e × (e.guest_rax ≡ m.frame.rax)
unfolding read_exit
read_exit-IsWord devices m e word h =
    let raw_reason = low_32 (read_or_report devices m vm_exit_reason) in
    let reason = reason_of raw_reason in
    let read_qualification = read_or_report devices m exit_qualification in
    let ept_exit = is_some_and is_ept_exit reason in
    let judged_by_qualification = ept_exit || is_some_and is_io_exit reason in
    let (rax, rcx, rdx, physical) =
      exit_info-inv m.frame (protected_page m.ept) reason
        (read_or_report devices m vm_exit_interruption_info)
        (read_or_report devices m guest_interruptibility_state)
        (read_or_report devices m idt_vectoring_info)
        (if judged_by_qualification
          then read_qualification
          else some (unwrap_or 0 read_qualification))
        (if ept_exit then read_or_report devices m guest_physical_address else some 0) e h in
    (
      record {
        rax = subst (λ x. x < 2 ^ 64) (sym rax) word.rax;
        rcx = subst (λ x. x < 2 ^ 64) (sym rcx) word.rcx;
        rdx = subst (λ x. x < 2 ^ 64) (sym rdx) word.rdx;
        physical =
            physical-u64 devices m ept_exit guest_physical_address e.guest_physical word physical;
      },
      rax,
    )

-- The event behind a finished run.
action-finished : (ev : ExitEvent) → action ev ≡ finished → ev ≡ last_main_vmcall
unfolding action
action-finished last_main_vmcall h = refl
action-finished ev h = absurd cc

after_prepare-goes_on :
    (plan : ResumePlan) (prepared : Option Resumed) → after_prepare plan prepared ≢ finished
after_prepare-goes_on plan (some done) h = absurd cc
after_prepare-goes_on plan none h = absurd cc

carry_out-finished :
    (devices : Devices) (act : ExitAction) (read : ExitRead) (m : Machine)
    → (carry_out devices act read m).0 ≡ finished
    → act ≡ finished
unfolding carry_out
carry_out-finished devices (resume plan) read m h = absurd (after_prepare-goes_on plan _ h)
carry_out-finished devices finished read m h = refl
carry_out-finished devices ExitAction.unexpected read m h = absurd cc

resume_guest-decode : (k : ℕ) → decode resume_guest ≢ Launch.finished k
unfolding decode
resume_guest-decode k h = absurd cc

decode-stub_return :
    (act : ExitAction) (number raw k : ℕ)
    → raw < 2 ^ 32
    → decode (stub_return act number raw) ≡ Launch.finished k
    → (act ≡ finished) × (k ≡ number % 2 ^ 62)
unfolding stub_return
decode-stub_return (resume plan) number raw k fits h = absurd (resume_guest-decode k h)
decode-stub_return finished number raw k fits h =
    let e : Launch.finished (number % 2 ^ 62) ≡ Launch.finished k =
      sym (decode-finished number) ∙ h in
    (refl, cc)
decode-stub_return ExitAction.unexpected number raw k fits h =
    let e : Launch.unexpected (number % 2 ^ 30) (from_raw raw) ≡ Launch.finished k =
      sym (decode_unexpected number raw fits) ∙ h in
    absurd cc

judged-finished :
    (exit : Option ExitInfo) (state : ExitState)
    → (judged exit state).0 ≡ last_main_vmcall
    → (e : ExitInfo) × (exit ≡ some e) × ((decide state e).0 ≡ last_main_vmcall)
judged-finished (some e) state h = (e, refl, h)
judged-finished none state h = absurd cc

-- When the handler, after a run of exits that it resumed, returns a value that reads back as finished, the
-- events of that run are complete: the first main VMCALL after the one granted write, and every planned
-- emulated exit; the guest's RAX shows the granted write; and the value says the number of these exits
-- plus one, modulo 2 ^ 62.
pub vmexit_handler-finished :
    (devices : Devices) (past : List ExitEvent) (k : ℕ) (before at_exit : Machine)
    → Run devices past before
    → at_exit.kept ≡ before.kept
    → IsMachineWord at_exit
    → decode (vmexit_handler devices at_exit).0 ≡ Launch.finished k
    → IsComplete past × (at_exit.frame.rax ≡ guest_marker + 1) × (k ≡ (length past + 1) % 2 ^ 62)
vmexit_handler-finished devices past k before at_exit run same word h =
    let (session, count) = Run-Session devices past before run in
    let (done, number) =
      decode-stub_return (outcome devices at_exit).0 _ _ k (raw_reason-u32 devices at_exit)
        (sym (ap decode (vmexit_handler-value devices at_exit)) ∙ h) in
    let last = action-finished _ (carry_out-finished devices _ _ _ done) in
    let (e, was_read, decided) = judged-finished _ (load_state at_exit.kept) last in
    let (words, taken) =
      read_exit-IsWord devices (counted at_exit) e
        (record { rax = word.rax; rcx = word.rcx; rdx = word.rdx; fields = word.fields })
        was_read in
    let (complete, rax) =
      finished-IsComplete past (load_state at_exit.kept) e
        (subst (λ x. Session past (load_state x)) (sym same) session) words decided in
    let kept_count : at_exit.kept.exit_count ≡ before.kept.exit_count =
      ap (λ x. x.exit_count) same in
    (complete, sym taken ∙ rax, number ∙ omega (arith, kept_count, count))
