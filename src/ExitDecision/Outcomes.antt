-- ===== src/ExitDecision/Outcomes.antt =====
-- A coarser case analysis of `decide`: the five emulation handlers of
-- src/vmx/exit_decision/emulation.rs either count the instruction that they execute, or inject #GP,
-- or refuse.
use aleph0_virtualization_hy.Base.{ℕ, ◌+◌, ◌≡◌, not, ◌||◌, Option, none, some, u32, if-elim}
use aleph0_virtualization_hy.ExitDecision.Types.{
  ExitInfo, ExitState, ExitEvent, Emulation, EmulationCounts, IoSize, emulated,
  interrupted_delivery, guest_general_protection, exit_reason_exception_or_nmi,
  exit_reason_nmi_window, exit_reason_ept_violation, exit_reason_vmcall,
}
use aleph0_virtualization_hy.ExitDecision.Emulation.{
  cpuid, rdmsr, wrmsr, io, MsrRoute, intercepted, out_of_range, not_intercepted, route, wrmsr_by,
  rdmsr_by, io_sized, size, is_canonical_48, is_string, is_rep, is_in,
}
use aleph0_virtualization_hy.ExitDecision.Scenario.{
  exception_or_nmi, nmi_window, ept_violation, vmcall,
}
use aleph0_virtualization_hy.ExitDecision.Decide.{decide, decide-elim}

abbrev pub count_of : Emulation → EmulationCounts → EmulationCounts
count_of (Emulation.cpuid _ _) c = record c { cpuid = u32 (c.cpuid + 1) }
count_of (Emulation.rdmsr _) c = record c { rdmsr = u32 (c.rdmsr + 1) }
count_of (Emulation.wrmsr _ _) c = record c { wrmsr = u32 (c.wrmsr + 1) }
count_of (Emulation.io_in _ _) c = record c { io_in = u32 (c.io_in + 1) }
count_of (Emulation.io_out _ _ _) c = record c { io_out = u32 (c.io_out + 1) }

pub record Outcomes {κ} (P : ExitEvent × ExitState → Type κ) (s : ExitState) (e : ExitInfo)
    : Type κ where
  pub executed : (em : Emulation) → P (emulated em, record s { emulated = count_of em s.emulated })
  pub faulted : P (guest_general_protection, s)
  pub refused : P (ExitEvent.unexpected, s)
  pub interrupted : P (interrupted_delivery, s)
  pub on_nmi : e.reason.basic ≡ exit_reason_exception_or_nmi → P (exception_or_nmi s e)
  pub on_window : e.reason.basic ≡ exit_reason_nmi_window → P (nmi_window s e)
  pub on_ept : e.reason.basic ≡ exit_reason_ept_violation → P (ept_violation s e)
  pub on_vmcall : e.reason.basic ≡ exit_reason_vmcall → P (vmcall s e)

module _ {κ} (P : ExitEvent × ExitState → Type κ) (s : ExitState) (e : ExitInfo)
    (o : Outcomes P s e) where
  at_rdmsr : (r : MsrRoute) (m : ℕ) → P (rdmsr_by r m s)
  at_rdmsr intercepted m = o.executed (Emulation.rdmsr m)
  at_rdmsr out_of_range m = o.faulted
  at_rdmsr not_intercepted m = o.refused

  at_wrmsr : (r : MsrRoute) (m v : ℕ) → P (wrmsr_by r m v s)
  at_wrmsr intercepted m v =
      if-elim P (not (is_canonical_48 v)) (λ _. o.faulted) (λ _. o.executed (Emulation.wrmsr m v))
  at_wrmsr out_of_range m v = o.faulted
  at_wrmsr not_intercepted m v = o.refused

  at_io : (r : Option IoSize) → P (io_sized r s e)
  at_io none = o.refused
  at_io (some z) =
      if-elim P (is_string e.qualification || is_rep e.qualification) (λ _. o.refused)
        λ _.
          if-elim P (is_in e.qualification) (λ _. o.executed (Emulation.io_in _ z))
            (λ _. o.executed (Emulation.io_out _ z _))

  on_rdmsr : P (rdmsr s e)
  unfolding rdmsr
  on_rdmsr = at_rdmsr (route (u32 e.guest_rcx)) (u32 e.guest_rcx)

  on_wrmsr : P (wrmsr s e)
  unfolding wrmsr
  on_wrmsr = at_wrmsr (route (u32 e.guest_rcx)) (u32 e.guest_rcx) _

  on_io : P (io s e)
  unfolding io
  on_io = at_io (size e.qualification)

  on_cpuid : P (cpuid s e)
  unfolding cpuid
  on_cpuid = o.executed (Emulation.cpuid _ _)

  pub outcomes-elim : P (decide s e)
  outcomes-elim = decide-elim P s e (record {
    refused = o.refused;
    interrupted = o.interrupted;
    on_cpuid = λ _. on_cpuid;
    on_rdmsr = λ _. on_rdmsr;
    on_wrmsr = λ _. on_wrmsr;
    on_io = λ _. on_io;
    on_nmi = o.on_nmi;
    on_window = o.on_window;
    on_ept = o.on_ept;
    on_vmcall = o.on_vmcall;
  })
