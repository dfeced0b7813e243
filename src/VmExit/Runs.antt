-- ===== src/VmExit/Runs.antt =====
-- The run of the guest that src/vmx/vmexit/handler.rs sees: VM exit after VM exit, each of which it
-- resumes. Between two of them the guest may change everything but the handler's atomics.
use aleph0_virtualization_hy.Base.{
  ◌+◌, ◌%◌, ◌^◌, ◌≡◌, refl, sym, ap, ◌∙◌, subst, Option, none, some, List, [], ◌∷◌, length, arith,
  u64,
}
use aleph0_virtualization_hy.ExitDecision.Types.{
  ExitInfo, ExitState, ExitEvent, resume, action, ResumePlan,
}
use aleph0_virtualization_hy.ExitDecision.Decide.{decide}
use aleph0_virtualization_hy.ExitDecision.Session.{Session, launched, exited}
use aleph0_virtualization_hy.VmExit.Machine.{initially, Machine, Devices}
use aleph0_virtualization_hy.VmExit.State.{load_state, judged}
use aleph0_virtualization_hy.VmExit.Handler.{resume_guest, vmexit_handler}
use aleph0_virtualization_hy.VmExit.Handled.{
  judgement, load_state-vmexit_handler, exit_count-vmexit_handler, vmexit_handler-value,
  raw_reason-u32, outcome, stub_return_zero, carry_out-resume,
}

-- The exits that the handler resumed, by the events that they were judged to be, the latest first, and the
-- machine after the last of them.
pub data Run (devices : Devices) : List ExitEvent → Machine → Type 0 where
  started : (m : Machine) → m.kept ≡ initially → Run devices [] m
  resumed :
      {past : List ExitEvent} {before : Machine}
      → Run devices past before
      → (at_exit after : Machine) → at_exit.kept ≡ before.kept
      → vmexit_handler devices at_exit ≡ (resume_guest, after)
      → Run devices ((judgement devices at_exit).0 ∷ past) after

-- A judged exit that resumes was read.
judged-resume :
    (exit : Option ExitInfo) (state : ExitState) (plan : ResumePlan)
    → action (judged exit state).0 ≡ resume plan
    → (e : ExitInfo) × (decide state e ≡ judged exit state)
unfolding action
judged-resume (some e) state plan h = (e, refl)
judged-resume none state plan h = absurd cc

pub resumes-inv :
    (devices : Devices) (m : Machine)
    → (vmexit_handler devices m).0 ≡ resume_guest
    → (plan : ResumePlan) × (action (judgement devices m).0 ≡ resume plan)
resumes-inv devices m h =
    let (plan, e) =
      stub_return_zero (outcome devices m).0 _ _ (raw_reason-u32 devices m)
        (sym (vmexit_handler-value devices m) ∙ h) in
    (plan, carry_out-resume devices _ _ _ plan e)

extended :
    (devices : Devices) (past : List ExitEvent) (before at_exit after : Machine)
    → Session past (load_state before.kept)
    → at_exit.kept ≡ before.kept
    → vmexit_handler devices at_exit ≡ (resume_guest, after)
    → Session ((judgement devices at_exit).0 ∷ past) (load_state after.kept)
extended devices past before at_exit after session same h =
    let (plan, resumes) = resumes-inv devices at_exit (ap (λ r. r.0) h) in
    let (e, decided) = judged-resume _ (load_state at_exit.kept) plan resumes in
    let loaded = ap load_state (sym same) in
    let next : (judgement devices at_exit).1 ≡ load_state after.kept =
      sym (load_state-vmexit_handler devices at_exit) ∙ ap (λ r. load_state r.1.kept) h in
    subst (Session ((judgement devices at_exit).0 ∷ past)) next
      (exited (subst (Session past) loaded session) e decided resumes)

-- After a run of exits that the handler resumed from its initial statics, the state it has stored is that
-- of the session of the events that these exits were judged to be, and the exit count is their number,
-- modulo 2 ^ 64.
pub Run-Session :
    (devices : Devices) (past : List ExitEvent) (m : Machine)
    → Run devices past m
    → Session past (load_state m.kept) × (m.kept.exit_count ≡ length past % 2 ^ 64)
unfolding load_state
Run-Session devices past m (started _ fresh) =
    (subst (λ k. Session [] (load_state k)) (sym fresh) launched, ap (λ k. k.exit_count) fresh)
Run-Session devices past m (resumed {past = earlier} {before} run at_exit _ same h) =
    let (session, count) = Run-Session devices earlier before run in
    let counted_to : m.kept.exit_count ≡ u64 (at_exit.kept.exit_count + 1) =
      sym (ap (λ r. r.1.kept.exit_count) h) ∙ exit_count-vmexit_handler devices at_exit in
    let kept_count : at_exit.kept.exit_count ≡ before.kept.exit_count =
      ap (λ k. k.exit_count) same in
    (
      extended devices earlier before at_exit m session same h,
      counted_to ∙ omega (arith, kept_count, count),
    )
