-- ===== src/ExitDecision/Events.antt =====
-- When `decide` injects, defers, grants and refuses: what the exit and the state show then.
use aleph0_virtualization_hy.Base.{
  ℕ, ◌+◌, ◌*◌, ◌/◌, ◌%◌, ◌^◌, ◌≤◌, ◌<◌, ◌≡◌, refl, ◌∙◌, ◌≢◌, ◌⊎◌, true, arith, bit_and, shr,
}
use aleph0_virtualization_hy.Base.Bits.{bit_and_low, bit_and_flag, bit_and_mask, bit_and_cut}
use aleph0_virtualization_hy.Guest.{
  guest_marker, guest_nmi_marker, guest_data_seed, guest_ept_value, expected_emulation,
}
use aleph0_virtualization_hy.ExitDecision.Types.{
  ExitInfo, IsWord, ExitState, ExitEvent, nmi_injected, nmi_deferred, nmi_window_injected,
  ept_write_granted, guest_nmi_handler, main_vmcall, last_main_vmcall, action, ExitAction,
  is_protected_write,
}
use aleph0_virtualization_hy.ExitDecision.InterruptionInfo.{is_nmi}
use aleph0_virtualization_hy.ExitDecision.Scenario.{
  exception_or_nmi, nmi_window, ept_violation, vmcall, nmi_injection_blocked,
}
use aleph0_virtualization_hy.ExitDecision.Decide.{decide}
use aleph0_virtualization_hy.ExitDecision.Outcomes.{outcomes-elim}

-- No blocking by STI, MOV SS or NMI.
abbrev pub CanTakeNmi : ExitInfo → Type 0
CanTakeNmi e =
    (e.interruptibility % 2 ≡ 0)
    × (e.interruptibility / 2 ^ 1 % 2 ≡ 0)
    × (e.interruptibility / 2 ^ 3 % 2 ≡ 0)

abbrev pub CannotTakeNmi : ExitInfo → Type 0
CannotTakeNmi e =
    (e.interruptibility % 2 ≡ 1)
    ⊎ (e.interruptibility / 2 ^ 1 % 2 ≡ 1)
    ⊎ (e.interruptibility / 2 ^ 3 % 2 ≡ 1)

-- A valid event of type 2 and vector 2.
abbrev pub ReportsNmi : ExitInfo → Type 0
ReportsNmi e =
    (e.interruption_info / 2 ^ 31 % 2 ≡ 1)
    × (e.interruption_info / 2 ^ 8 % 8 ≡ 2)
    × (e.interruption_info % 2 ^ 8 ≡ 2)

-- A write through the linear address to a page that EPT let the guest read and not write, which
-- did not end NMI blocking.
abbrev pub WritesProtected : ExitInfo → Type 0
WritesProtected e =
    (e.qualification / 2 ^ 1 % 2 ≡ 1)
    × (e.qualification / 2 ^ 3 % 2 ≡ 1)
    × (e.qualification / 2 ^ 4 % 2 ≡ 0)
    × (e.qualification / 2 ^ 7 % 2 ≡ 1)
    × (e.qualification / 2 ^ 8 % 2 ≡ 1)
    × (e.qualification / 2 ^ 12 % 2 ≡ 0)

-- The next main VMCALL, after a grant; the first one shows what the guest read from its data page.
abbrev pub NextMain : ExitState → ExitInfo → Type 0
NextMain s e =
    (e.reason.basic ≡ 18)
    × (e.guest_rax ≡ (guest_marker + s.main_vmcalls) % 2 ^ 64)
    × (s.ept_writes_granted ≢ 0)
    × ((s.main_vmcalls ≢ 0)
        ⊎ ((e.guest_rcx % 2 ^ 32 ≡ guest_data_seed) × (e.guest_rdx % 2 ^ 32 ≡ guest_ept_value)))

-- What an event says of the state and the exit.
abbrev pub Justified : ExitState → ExitInfo → ExitEvent → Type 0
Justified s e nmi_injected = (e.reason.basic ≡ 0) × ReportsNmi e × CanTakeNmi e
Justified s e nmi_deferred =
    (((e.reason.basic ≡ 0) × ReportsNmi e) ⊎ ((e.reason.basic ≡ 8) × (s.nmi_pending ≡ true)))
    × CannotTakeNmi e
Justified s e nmi_window_injected = (e.reason.basic ≡ 8) × (s.nmi_pending ≡ true) × CanTakeNmi e
Justified s e ept_write_granted =
    (e.reason.basic ≡ 48)
    × (s.ept_writes_granted ≡ 0)
    × (e.protected_page ≢ 0)
    × (e.guest_physical / 2 ^ 12 * 2 ^ 12 ≡ e.protected_page)
    × WritesProtected e
Justified s e guest_nmi_handler = (e.reason.basic ≡ 18) × (e.guest_rax ≡ guest_nmi_marker)
Justified s e main_vmcall = NextMain s e × ((s.main_vmcalls + 1) % 2 ^ 32 < 2)
Justified s e last_main_vmcall =
    NextMain s e × (2 ≤ (s.main_vmcalls + 1) % 2 ^ 32) × (s.emulated ≡ expected_emulation)
Justified s e _ = Unit {0}

-- What an event says of the count of granted writes in the next state: a grant is recorded, and no other
-- event changes the count.
abbrev pub Recorded : ExitState → ExitEvent × ExitState → Type 0
Recorded s (ept_write_granted, next) = next.ept_writes_granted ≡ 1
Recorded s (_, next) = next.ept_writes_granted ≡ s.ept_writes_granted

blocked_mask :
    (e : ExitInfo)
    → bit_and e.interruptibility nmi_injection_blocked
      ≡ e.interruptibility % 2
        + e.interruptibility / 2 ^ 1 % 2 * 2
        + e.interruptibility / 2 ^ 3 % 2 * 2 ^ 3
blocked_mask e =
    bit_and_cut 3 e.interruptibility 1 3 (omega arith)
    ∙ omega (
      arith,
      bit_and_low 1 (e.interruptibility / 2 ^ 3),
      bit_and_low 2 (e.interruptibility % 2 ^ 3),
    )

required_mask :
    (q : ℕ)
    → bit_and q 394
      ≡ q / 2 ^ 1 % 2 * 2 ^ 1
        + q / 2 ^ 3 % 2 * 2 ^ 3
        + q / 2 ^ 7 % 2 * 2 ^ 7
        + q / 2 ^ 8 % 2 * 2 ^ 8
required_mask q =
    bit_and_cut 7 q 3 10 (omega arith)
    ∙ omega (
      arith,
      bit_and_low 2 (q / 2 ^ 7),
      bit_and_cut 3 (q % 2 ^ 7) 1 2 (omega arith),
      bit_and_low 1 (q % 2 ^ 7 / 2 ^ 3),
      bit_and_flag 1 (q % 2 ^ 7 % 2 ^ 3),
    )

refused_mask : (q : ℕ) → bit_and q 4112 ≡ q / 2 ^ 4 % 2 * 2 ^ 4 + q / 2 ^ 12 % 2 * 2 ^ 12
refused_mask q =
    bit_and_cut 12 q 1 16 (omega arith)
    ∙ omega (arith, bit_and_low 1 (q / 2 ^ 12), bit_and_flag 4 (q % 2 ^ 12))

is_protected_write_lem :
    (e : ExitInfo) → is_protected_write e.qualification ≡ true → WritesProtected e
unfolding is_protected_write
is_protected_write_lem e h =
    ground (arith, required_mask e.qualification, refused_mask e.qualification)

is_nmi_lem : (e : ExitInfo) → is_nmi e.interruption_info ≡ true → ReportsNmi e
unfolding is_nmi
is_nmi_lem e h =
    ground (arith, bit_and_flag 31 e.interruption_info, bit_and_low 3 (shr e.interruption_info 8))

module _ (s : ExitState) (e : ExitInfo) (w : IsWord e) where
  nmi-Justified : e.reason.basic ≡ 0 → Justified s e (exception_or_nmi s e).0
  unfolding exception_or_nmi
  nmi-Justified h = ground (arith, is_nmi_lem e, blocked_mask e)

  window-Justified : e.reason.basic ≡ 8 → Justified s e (nmi_window s e).0
  unfolding nmi_window
  window-Justified h = ground (arith, blocked_mask e)

  ept-Justified : e.reason.basic ≡ 48 → Justified s e (ept_violation s e).0
  unfolding ept_violation
  ept-Justified h =
      ground (arith, is_protected_write_lem e, bit_and_mask 52 12 e.guest_physical, w.physical)

  vmcall-Justified : e.reason.basic ≡ 18 → Justified s e (vmcall s e).0
  unfolding vmcall
  vmcall-Justified h = ground arith

  decide-Recorded : Recorded s (decide s e)
  decide-Recorded = outcomes-elim (Recorded s) s e (record {
    executed = λ _. refl;
    faulted = refl;
    refused = refl;
    interrupted = refl;
    on_nmi = λ _. unfold exception_or_nmi in ground arith;
    on_window = λ _. unfold nmi_window in ground arith;
    on_ept = λ _. unfold ept_violation in ground arith;
    on_vmcall = λ _. unfold vmcall in ground arith;
  })

  -- An NMI is injected only on an NMI exit, or on an NMI window with an NMI pending, and only when
  -- the guest blocks NMIs neither by STI, nor by MOV SS, nor by an NMI; it is deferred only when
  -- one of these blocks it. The protected page is opened only while no grant is recorded, on an EPT
  -- violation by a plain write to that page; the grant is then recorded, and no other event changes
  -- the record. A VMCALL counts as a main one only with the next marker in RAX and after the grant,
  -- the first one only with the data page read back in ECX and EDX, and the last one only with exactly
  -- the expected emulated exits.
  pub decide-Justified : Justified s e (decide s e).0 × Recorded s (decide s e)
  decide-Justified = (
    outcomes-elim (λ r. Justified s e r.0) s e
        (record {
          executed = λ _. tt;
          faulted = tt;
          refused = tt;
          interrupted = tt;
          on_nmi = nmi-Justified;
          on_window = window-Justified;
          on_ept = ept-Justified;
          on_vmcall = vmcall-Justified;
        }),
    decide-Recorded,
  )

-- An exit that stops the guest as unexpected leaves the state as it was.
decide_unexpected_unchanged :
    (s : ExitState) (e : ExitInfo)
    → action (decide s e).0 ≡ ExitAction.unexpected
    → (decide s e).1 ≡ s
unfolding action
decide_unexpected_unchanged s e =
    outcomes-elim (λ r. action r.0 ≡ ExitAction.unexpected → r.1 ≡ s) s e
      (record {
        executed = λ _ h. ground arith;
        faulted = λ _. refl;
        refused = λ _. refl;
        interrupted = λ _. refl;
        on_nmi = λ _. unfold exception_or_nmi in λ h. ground arith;
        on_window = λ _. unfold nmi_window in λ h. ground arith;
        on_ept = λ _. unfold ept_violation in λ h. ground arith;
        on_vmcall = λ _. unfold vmcall in λ h. ground arith;
      })
