-- ===== src/ExitDecision/Scenario.antt =====
-- src/vmx/exit_decision/scenario.rs: the test guest's own exits. The counters are u32 and wrap, as
-- in a release build (a debug build panics there).
use aleph0_virtualization_hy.Base.{
  ℕ, ◌+◌, ◌^◌, Bool, true, false, not, ◌&&◌, bit_and, bit_or, ltb, ◌==◌, ◌!=◌, u32, u64, not64,
  if◌then◌else◌,
}
use aleph0_virtualization_hy.Guest.{
  guest_marker, guest_nmi_marker, guest_data_seed, guest_ept_value, expected_emulation,
}
use aleph0_virtualization_hy.ExitDecision.Types.{
  ExitInfo, ExitState, EmulationCounts, ExitEvent, main_vmcall, last_main_vmcall, guest_nmi_handler,
  nmi_injected, nmi_deferred, nmi_window_injected, ept_write_granted, ept_write_missing,
  data_page_mismatch, emulation_missing, is_protected_write,
}
use aleph0_virtualization_hy.ExitDecision.InterruptionInfo

abbrev pub planned_main_vmcalls : ℕ
planned_main_vmcalls = 2

abbrev pub blocking_by_sti : ℕ
blocking_by_sti = 2 ^ 0

abbrev pub blocking_by_mov_ss : ℕ
blocking_by_mov_ss = 2 ^ 1

abbrev pub blocking_by_nmi : ℕ
blocking_by_nmi = 2 ^ 3

abbrev pub nmi_injection_blocked : ℕ
nmi_injection_blocked = bit_or (bit_or blocking_by_sti blocking_by_mov_ss) blocking_by_nmi

unfoldable pub data_page_read_back : ExitInfo → Bool
data_page_read_back exit =
    (u32 exit.guest_rcx == guest_data_seed) && (u32 exit.guest_rdx == guest_ept_value)

unfoldable pub expected_main_rax : ExitState → ℕ
expected_main_rax state = u64 (guest_marker + state.main_vmcalls)

unfoldable pub injected : ExitState → ExitState
injected state = record state { nmi_pending = false; nmis_injected = u32 (state.nmis_injected + 1) }

unfoldable pub exception_or_nmi : ExitState → ExitInfo → ExitEvent × ExitState
unfolding injected
exception_or_nmi state exit =
    if not (InterruptionInfo.is_nmi exit.interruption_info)
    then (ExitEvent.unexpected, state)
    else if bit_and exit.interruptibility nmi_injection_blocked == 0
    then (nmi_injected, injected state)
    else (nmi_deferred, record state { nmi_pending = true })

unfoldable pub nmi_window : ExitState → ExitInfo → ExitEvent × ExitState
unfolding injected
nmi_window state exit =
    if not state.nmi_pending
    then (ExitEvent.unexpected, state)
    else if bit_and exit.interruptibility nmi_injection_blocked != 0
    then (nmi_deferred, state)
    else (nmi_window_injected, injected state)

unfoldable pub ept_violation : ExitState → ExitInfo → ExitEvent × ExitState
ept_violation state exit =
    let protected_write =
      (exit.protected_page != 0)
      && ((bit_and exit.guest_physical (not64 0xFFF) == exit.protected_page)
          && is_protected_write exit.qualification) in
    if protected_write && (state.ept_writes_granted == 0)
    then (ept_write_granted, record state { ept_writes_granted = 1 })
    else (ExitEvent.unexpected, state)

-- The derived `==` of `EmulationCounts`.
abbrev pub same_counts : EmulationCounts → EmulationCounts → Bool
same_counts c d =
    (c.cpuid == d.cpuid)
    && ((c.rdmsr == d.rdmsr)
        && ((c.wrmsr == d.wrmsr) && ((c.io_in == d.io_in) && (c.io_out == d.io_out))))

unfoldable pub vmcall : ExitState → ExitInfo → ExitEvent × ExitState
unfolding expected_main_rax data_page_read_back
vmcall state exit =
    if exit.guest_rax == guest_nmi_marker
    then (guest_nmi_handler, record state { nmis_handled = u32 (state.nmis_handled + 1) })
    else if exit.guest_rax != expected_main_rax state
    then (ExitEvent.unexpected, state)
    else if state.ept_writes_granted == 0
    then (ept_write_missing, state)
    else if (state.main_vmcalls == 0) && not (data_page_read_back exit)
    then (data_page_mismatch, state)
    else let next = record state { main_vmcalls = u32 (state.main_vmcalls + 1) } in
      if ltb next.main_vmcalls planned_main_vmcalls
      then (main_vmcall, next)
      else if not (same_counts state.emulated expected_emulation)
      then (emulation_missing, state)
      else (last_main_vmcall, next)
