-- ===== src/ExitDecision/Session.antt =====
-- A run of the guest: the exits that the handler resumes, one after the other, with the state that
-- `judge` in src/vmx/vmexit/handler.rs keeps between them. A session lists its events, the latest
-- first.
use aleph0_virtualization_hy.Base.{
  ℕ, suc, ◌≤◌, ◌≡◌, Bool, true, false, List, [], ◌∷◌, arith, u32, subst, if◌then◌else◌,
}
use aleph0_virtualization_hy.ExitDecision.Types.{
  ExitInfo, ExitState, initial_state, ExitEvent, Emulation, main_vmcall, guest_nmi_handler,
  nmi_injected, nmi_deferred, nmi_window_injected, ept_write_granted, emulated, ResumePlan, resume,
  action,
}
use aleph0_virtualization_hy.ExitDecision.Scenario.{
  exception_or_nmi, nmi_window, ept_violation, vmcall,
}
use aleph0_virtualization_hy.ExitDecision.Decide.{decide}
use aleph0_virtualization_hy.ExitDecision.Outcomes.{outcomes-elim, count_of}

pub data Session : List ExitEvent → ExitState → Type 0 where
  launched : Session [] initial_state
  exited :
      {past : List ExitEvent} {s s' : ExitState} {ev : ExitEvent} {plan : ResumePlan}
      → Session past s
      → (e : ExitInfo) → decide s e ≡ (ev, s')
      → action ev ≡ resume plan
      → Session (ev ∷ past) s'

abbrev pub count : (ExitEvent → Bool) → List ExitEvent → ℕ
count test [] = 0
count test (ev ∷ past) = if test ev then suc (count test past) else count test past

abbrev pub is_main : ExitEvent → Bool
is_main main_vmcall = true
is_main _ = false

abbrev pub is_grant : ExitEvent → Bool
is_grant ept_write_granted = true
is_grant _ = false

abbrev pub is_injection : ExitEvent → Bool
is_injection nmi_injected = true
is_injection nmi_window_injected = true
is_injection _ = false

abbrev pub is_handler : ExitEvent → Bool
is_handler guest_nmi_handler = true
is_handler _ = false

abbrev pub is_cpuid : ExitEvent → Bool
is_cpuid (emulated (Emulation.cpuid _ _)) = true
is_cpuid _ = false

abbrev pub is_rdmsr : ExitEvent → Bool
is_rdmsr (emulated (Emulation.rdmsr _)) = true
is_rdmsr _ = false

abbrev pub is_wrmsr : ExitEvent → Bool
is_wrmsr (emulated (Emulation.wrmsr _ _)) = true
is_wrmsr _ = false

abbrev pub is_io_in : ExitEvent → Bool
is_io_in (emulated (Emulation.io_in _ _)) = true
is_io_in _ = false

abbrev pub is_io_out : ExitEvent → Bool
is_io_out (emulated (Emulation.io_out _ _ _)) = true
is_io_out _ = false

-- An NMI waits if the latest of the NMI events is a deferral.
abbrev pub is_waiting : List ExitEvent → Bool
is_waiting [] = false
is_waiting (nmi_deferred ∷ past) = true
is_waiting (nmi_injected ∷ past) = false
is_waiting (nmi_window_injected ∷ past) = false
is_waiting (_ ∷ past) = is_waiting past

-- The grant came before every main VMCALL.
abbrev pub IsOrdered : List ExitEvent → Type 0
IsOrdered [] = Unit {0}
IsOrdered (main_vmcall ∷ past) = (count is_grant past ≡ 1) × IsOrdered past
IsOrdered (_ ∷ past) = IsOrdered past

-- The state is a summary of the events. The two counters that end the run are exact; the others
-- are u32 and wrap.
pub record Summary (past : List ExitEvent) (s : ExitState) : Type 0 where
  pub mains : s.main_vmcalls ≡ count is_main past
  pub grants : s.ept_writes_granted ≡ count is_grant past
  pub one_grant : s.ept_writes_granted ≤ 1
  pub one_main : s.main_vmcalls ≤ 1
  pub grant_first : s.main_vmcalls ≤ s.ept_writes_granted
  pub ordered : IsOrdered past
  pub injections : s.nmis_injected ≡ u32 (count is_injection past)
  pub handlers : s.nmis_handled ≡ u32 (count is_handler past)
  pub waiting : s.nmi_pending ≡ is_waiting past
  pub cpuids : s.emulated.cpuid ≡ u32 (count is_cpuid past)
  pub rdmsrs : s.emulated.rdmsr ≡ u32 (count is_rdmsr past)
  pub wrmsrs : s.emulated.wrmsr ≡ u32 (count is_wrmsr past)
  pub io_ins : s.emulated.io_in ≡ u32 (count is_io_in past)
  pub io_outs : s.emulated.io_out ≡ u32 (count is_io_out past)

module _ (past : List ExitEvent) (s : ExitState) (e : ExitInfo) (h : Summary past s) where
  abbrev Continues : ExitEvent × ExitState → Type 0
  Continues r = (plan : ResumePlan) → action r.0 ≡ resume plan → Summary (r.0 ∷ past) r.1

  executed-Summary :
      (em : Emulation)
      → Summary (emulated em ∷ past) (record s { emulated = count_of em s.emulated })
  executed-Summary (Emulation.cpuid l c) = ground arith
  executed-Summary (Emulation.rdmsr m) = ground arith
  executed-Summary (Emulation.wrmsr m v) = ground arith
  executed-Summary (Emulation.io_in p z) = ground arith
  executed-Summary (Emulation.io_out p z v) = ground arith

  nmi-Summary : Continues (exception_or_nmi s e)
  unfolding exception_or_nmi action
  nmi-Summary plan a = ground arith

  window-Summary : Continues (nmi_window s e)
  unfolding nmi_window action
  window-Summary plan a = ground arith

  ept-Summary : Continues (ept_violation s e)
  unfolding ept_violation action
  ept-Summary plan a = ground arith

  vmcall-Summary : Continues (vmcall s e)
  unfolding vmcall action
  vmcall-Summary plan a = ground arith

  decide-Summary : Continues (decide s e)
  unfolding action
  decide-Summary = outcomes-elim Continues s e (record {
    executed = λ em plan a. executed-Summary em;
    faulted = λ plan a. ground arith;
    refused = λ plan a. cc;
    interrupted = λ plan a. cc;
    on_nmi = λ _. nmi-Summary;
    on_window = λ _. window-Summary;
    on_ept = λ _. ept-Summary;
    on_vmcall = λ _. vmcall-Summary;
  })

-- After every session the handler's state is the summary of the events so far: at most one grant,
-- and at most one main VMCALL, which came after it; the numbers of injected and of handled NMIs and
-- of each emulated instruction, modulo 2 ^ 32; and an NMI is pending exactly when the latest event
-- of an NMI is a deferral.
pub Session-Summary : (past : List ExitEvent) (s : ExitState) → Session past s → Summary past s
Session-Summary past s launched = ground arith
Session-Summary past t (exited {past = before} {s} {s'} {ev} {plan} run e d a) =
    subst (λ r. action r.0 ≡ resume plan → Summary (r.0 ∷ before) r.1) d
      (decide-Summary before s e (Session-Summary before s run) plan) a
