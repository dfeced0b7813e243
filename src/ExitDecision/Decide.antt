-- ===== src/ExitDecision/Decide.antt =====
-- `decide` of src/vmx/exit_decision/mod.rs: what holds for every exit first, then the handler for
-- the exit's reason.
use aleph0_virtualization_hy.Base.{ℕ, ◌≡◌, ◌==◌, ==_iff, if◌then◌else◌, if-elim}
use aleph0_virtualization_hy.ExitDecision.Types.{
  ExitInfo, ExitState, ExitEvent, interrupted_delivery, exit_reason_cpuid, exit_reason_rdmsr,
  exit_reason_wrmsr, exit_reason_io_instruction, exit_reason_exception_or_nmi,
  exit_reason_nmi_window, exit_reason_ept_violation, exit_reason_vmcall,
}
use aleph0_virtualization_hy.ExitDecision.Emulation
use aleph0_virtualization_hy.ExitDecision.Scenario

-- The `match` on the basic exit reason.
unfoldable pub dispatch : ℕ → ExitState → ExitInfo → ExitEvent × ExitState
dispatch basic state exit =
    if basic == exit_reason_cpuid
    then Emulation.cpuid state exit
    else if basic == exit_reason_rdmsr
    then Emulation.rdmsr state exit
    else if basic == exit_reason_wrmsr
    then Emulation.wrmsr state exit
    else if basic == exit_reason_io_instruction
    then Emulation.io state exit
    else if basic == exit_reason_exception_or_nmi
    then Scenario.exception_or_nmi state exit
    else if basic == exit_reason_nmi_window
    then Scenario.nmi_window state exit
    else if basic == exit_reason_ept_violation
    then Scenario.ept_violation state exit
    else if basic == exit_reason_vmcall
    then Scenario.vmcall state exit
    else (ExitEvent.unexpected, state)

unfoldable pub decide : ExitState → ExitInfo → ExitEvent × ExitState
unfolding dispatch
decide state exit =
    if exit.reason.entry_failure
    then (ExitEvent.unexpected, state)
    else if exit.idt_vectoring_valid
    then (interrupted_delivery, state)
    else dispatch exit.reason.basic state exit

-- To prove something of `decide`, prove it of each of its returns.
pub record Cases {κ} (P : ExitEvent × ExitState → Type κ) (s : ExitState) (e : ExitInfo)
    : Type κ where
  pub refused : P (ExitEvent.unexpected, s)
  pub interrupted : P (interrupted_delivery, s)
  pub on_cpuid : e.reason.basic ≡ exit_reason_cpuid → P (Emulation.cpuid s e)
  pub on_rdmsr : e.reason.basic ≡ exit_reason_rdmsr → P (Emulation.rdmsr s e)
  pub on_wrmsr : e.reason.basic ≡ exit_reason_wrmsr → P (Emulation.wrmsr s e)
  pub on_io : e.reason.basic ≡ exit_reason_io_instruction → P (Emulation.io s e)
  pub on_nmi : e.reason.basic ≡ exit_reason_exception_or_nmi → P (Scenario.exception_or_nmi s e)
  pub on_window : e.reason.basic ≡ exit_reason_nmi_window → P (Scenario.nmi_window s e)
  pub on_ept : e.reason.basic ≡ exit_reason_ept_violation → P (Scenario.ept_violation s e)
  pub on_vmcall : e.reason.basic ≡ exit_reason_vmcall → P (Scenario.vmcall s e)

module _ {κ} (P : ExitEvent × ExitState → Type κ) (s : ExitState) (e : ExitInfo) where
  at_reason :
      (n : ℕ) {x y : ExitEvent × ExitState}
      → (e.reason.basic ≡ n → P x)
      → P y
      → P (if e.reason.basic == n then x else y)
  at_reason n hx hy = if-elim P (e.reason.basic == n) (λ h. hx ((==_iff _ n).0 h)) (λ _. hy)

  pub decide-elim : Cases P s e → P (decide s e)
  unfolding decide
  decide-elim c =
      if-elim P e.reason.entry_failure (λ _. c.refused)
        λ _.
          if-elim P e.idt_vectoring_valid (λ _. c.interrupted)
            λ _. at_reason exit_reason_cpuid c.on_cpuid (
              at_reason exit_reason_rdmsr c.on_rdmsr (
                at_reason exit_reason_wrmsr c.on_wrmsr (
                  at_reason exit_reason_io_instruction c.on_io (
                    at_reason exit_reason_exception_or_nmi c.on_nmi (
                      at_reason exit_reason_nmi_window c.on_window (
                        at_reason exit_reason_ept_violation c.on_ept
                          (at_reason exit_reason_vmcall c.on_vmcall c.refused)))))))
