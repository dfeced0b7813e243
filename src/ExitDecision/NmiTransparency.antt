-- ===== src/ExitDecision/NmiTransparency.antt =====
-- NMIs do not disturb the plan of src/vmx/exit_decision/scenario.rs: wherever they arrive, the
-- other exits are judged as if they had not.
use aleph0_virtualization_hy.Base.{
  ℕ, ◌≡◌, refl, ap, ◌∙◌, Bool, true, false, ◌&&◌, ◌||◌, Option, none, some, List, [], ◌∷◌, arith,
  ◌==◌, if◌then◌else◌, Bool-cases, inl, inr,
}
use aleph0_virtualization_hy.Guest.{guest_nmi_marker}
use aleph0_virtualization_hy.ExitDecision.Types.{
  ExitInfo, ExitState, ExitEvent, ExitAction, resume, action,
}
use aleph0_virtualization_hy.ExitDecision.Emulation.{
  cpuid, rdmsr, wrmsr, io, MsrRoute, rdmsr_by, wrmsr_by,
}
use aleph0_virtualization_hy.ExitDecision.Scenario.{
  exception_or_nmi, nmi_window, ept_violation, vmcall,
}
use aleph0_virtualization_hy.ExitDecision.Decide.{decide}

-- The state without what it remembers of NMIs.
abbrev pub progress : ExitState → ExitState
progress s = record s { nmi_pending = false; nmis_injected = 0; nmis_handled = 0 }

-- An exception or NMI, an NMI window, or the VMCALL of the guest's NMI handler.
abbrev pub is_nmi_exit : ExitInfo → Bool
is_nmi_exit e =
    (e.reason.basic == 0)
    || ((e.reason.basic == 8) || ((e.reason.basic == 18) && (e.guest_rax == guest_nmi_marker)))

-- The next state, if the guest goes on.
abbrev next_state : ExitAction → ExitState → Option ExitState
next_state (resume plan) s = some s
next_state _ s = none

infixl 5 ◌>>=◌
abbrev ◌>>=◌ : Option ExitState → (ExitState → Option ExitState) → Option ExitState
none >>= f = none
some s >>= f = f s

-- The state after a list of exits that are all resumed.
unfoldable pub drive : ExitState → List ExitInfo → Option ExitState
drive s [] = some s
drive s (e ∷ es) = do next ← next_state (action (decide s e).0) (decide s e).1; drive next es

unfoldable pub without_nmi : List ExitInfo → List ExitInfo
without_nmi [] = []
without_nmi (e ∷ es) = if is_nmi_exit e then without_nmi es else e ∷ without_nmi es

abbrev Erased : ExitEvent × ExitState → ExitEvent × ExitState → Type 0
Erased r r' = (r'.0 ≡ r.0) × (r'.1 ≡ progress r.1)

module _ (s : ExitState) (e : ExitInfo) where
  rdmsr_by-Erased : (r : MsrRoute) (m : ℕ) → Erased (rdmsr_by r m s) (rdmsr_by r m (progress s))
  rdmsr_by-Erased r m = ground arith

  wrmsr_by-Erased :
      (r : MsrRoute) (m v : ℕ) → Erased (wrmsr_by r m v s) (wrmsr_by r m v (progress s))
  wrmsr_by-Erased r m v = ground arith

  rdmsr-Erased : Erased (rdmsr s e) (rdmsr (progress s) e)
  unfolding rdmsr
  rdmsr-Erased = ground arith

  wrmsr-Erased : Erased (wrmsr s e) (wrmsr (progress s) e)
  unfolding wrmsr
  wrmsr-Erased = ground arith

  io-Erased : Erased (io s e) (io (progress s) e)
  unfolding io
  io-Erased = ground arith

  ept-Erased : Erased (ept_violation s e) (ept_violation (progress s) e)
  unfolding ept_violation
  ept-Erased = ground arith

  vmcall-Erased :
      (e.guest_rax == guest_nmi_marker) ≡ false → Erased (vmcall s e) (vmcall (progress s) e)
  unfolding vmcall
  vmcall-Erased h = ground arith

  cpuid-Erased : Erased (cpuid s e) (cpuid (progress s) e)
  unfolding cpuid
  cpuid-Erased = ground arith

  -- An exit that is no NMI's is judged without regard to what the state remembers of NMIs.
  pub decide-progress : is_nmi_exit e ≡ false → Erased (decide s e) (decide (progress s) e)
  unfolding decide
  decide-progress h =
      ground (arith, cpuid-Erased, rdmsr-Erased, wrmsr-Erased, io-Erased, ept-Erased, vmcall-Erased)

  nmi_unmoved : progress (exception_or_nmi s e).1 ≡ progress s
  unfolding exception_or_nmi
  nmi_unmoved = ground arith

  window_unmoved : progress (nmi_window s e).1 ≡ progress s
  unfolding nmi_window
  window_unmoved = ground arith

  handler_unmoved : (e.guest_rax == guest_nmi_marker) ≡ true → progress (vmcall s e).1 ≡ progress s
  unfolding vmcall
  handler_unmoved h = ground arith

  -- An exit of an NMI makes no progress.
  nmi_stays : is_nmi_exit e ≡ true → progress (decide s e).1 ≡ progress s
  unfolding decide
  nmi_stays h = ground (arith, nmi_unmoved, window_unmoved, handler_unmoved)

bind_next :
    (a : ExitAction) (s : ExitState) (f : ExitState → Option ExitState) {t : ExitState}
    → (next_state a s >>= f) ≡ some t
    → (next_state a s ≡ some s) × (f s ≡ some t)
bind_next (resume plan) s f h = (refl, h)
bind_next ExitAction.finished s f h = cc
bind_next ExitAction.unexpected s f h = cc

resumes_alike :
    (a : ExitAction) (s s' : ExitState) → next_state a s ≡ some s → next_state a s' ≡ some s'
resumes_alike (resume plan) s s' h = refl
resumes_alike ExitAction.finished s s' h = cc
resumes_alike ExitAction.unexpected s s' h = cc

drive_skips :
    (es : List ExitInfo) (s t : ExitState)
    → drive s es ≡ some t
    → drive (progress s) (without_nmi es) ≡ some (progress t)
unfolding drive without_nmi
drive_skips [] s t d = ground arith
drive_skips (e ∷ es) s t d =
    let (goes_on, rest) =
      bind_next (action (decide s e).0) (decide s e).1 (λ next. drive next es) d in
    let ih = drive_skips es (decide s e).1 t rest in
    elim (Bool-cases (is_nmi_exit e)) [
      | inl nmi ↦ rw nmi (rw (nmi_stays s e nmi) at ih)
      | inr other ↦ rw other (
          rw ((decide-progress s e other).0, (decide-progress s e other).1)
            (ap (λ r. r >>= λ next. drive next (without_nmi es))
                (resumes_alike (action (decide s e).0) _ _ goes_on)
              ∙ ih))
    ]

-- If every exit of a run is resumed, so is every exit of the run without its NMIs, which ends with
-- the same progress; and the next exit that is no NMI's is judged the same after both.
pub drive-without_nmi :
    (es : List ExitInfo) (s t : ExitState) (last : ExitInfo)
    → drive s es ≡ some t
    → is_nmi_exit last ≡ false
    → (drive (progress s) (without_nmi es) ≡ some (progress t))
      × ((decide (progress t) last).0 ≡ (decide t last).0)
drive-without_nmi es s t last d h = (drive_skips es s t d, (decide-progress t last h).0)
