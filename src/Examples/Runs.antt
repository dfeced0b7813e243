-- ===== src/Examples/Runs.antt =====
-- A run of the guest from launch to its last VMCALL.
use aleph0_virtualization_hy.Base.{◌+◌, ◌≡◌, refl, List, [], ◌∷◌, arith, some}
use aleph0_virtualization_hy.Guest.{guest_marker}
use aleph0_virtualization_hy.ExitDecision.InterruptionInfo
use aleph0_virtualization_hy.ExitDecision.Types
use aleph0_virtualization_hy.ExitDecision.Types.{
  ExitInfo, ExitState, ExitEvent, IsWord, initial_state, main_vmcall, last_main_vmcall,
  nmi_injected, ept_write_granted, emulated, ExitAction, action, is_protected_write,
}
use aleph0_virtualization_hy.ExitDecision.Emulation
use aleph0_virtualization_hy.ExitDecision.Scenario
use aleph0_virtualization_hy.ExitDecision.Decide.{dispatch, decide}
use aleph0_virtualization_hy.ExitDecision.Session.{
  Session, launched, exited, Summary, Session-Summary,
}
use aleph0_virtualization_hy.ExitDecision.Finish.{IsComplete, finished-IsComplete}
use aleph0_virtualization_hy.ExitBitmaps.{msr_bit}
use aleph0_virtualization_hy.ExitDecision.Safety.{Explains, decide-Explains}
use aleph0_virtualization_hy.ExitDecision.Events.{Justified, Recorded, decide-Justified}
use aleph0_virtualization_hy.ExitDecision.NmiTransparency.{
  progress, drive, without_nmi, drive-without_nmi,
}
use aleph0_virtualization_hy.Examples.Exits.{
  protected_write, first_main, last_main, cpuid_exit, rdmsr_exit, wrmsr_exit, in_exit, out_exit,
  nmi_exit, granted, emulating,
}

abbrev complete : List ExitEvent
complete =
    emulated (Types.io_out 0x3FF Types.byte 0xA5)
    ∷ emulated (Types.io_out 0x3FF Types.byte 0xA5)
    ∷ emulated (Types.io_in 0x3FF Types.byte)
    ∷ emulated (Types.io_in 0x3FF Types.byte)
    ∷ emulated (Types.wrmsr 0xC000_0102 0x7A1E_0000_0000)
    ∷ emulated (Types.wrmsr 0xC000_0102 0x7A1E_0000_0000)
    ∷ emulated (Types.rdmsr 0xC000_0102)
    ∷ emulated (Types.rdmsr 0xC000_0102)
    ∷ emulated (Types.cpuid 1 0)
    ∷ main_vmcall
    ∷ ept_write_granted
    ∷ []

complete_run : Session complete (emulating 1 2 2 2 2)
unfolding decide dispatch Scenario.ept_violation is_protected_write Scenario.vmcall Emulation.cpuid
    Emulation.rdmsr Emulation.wrmsr Emulation.io Emulation.route Emulation.is_canonical_48
    Emulation.size Emulation.is_in Emulation.is_string Emulation.is_rep Emulation.port
    Emulation.out_value Scenario.exception_or_nmi InterruptionInfo.is_nmi InterruptionInfo.vector
    InterruptionInfo.is_valid Scenario.injected Scenario.expected_main_rax
    Scenario.data_page_read_back msr_bit action
complete_run =
    let r1 : Session (ept_write_granted ∷ []) granted = exited launched protected_write refl refl in
    let r2 : Session (main_vmcall ∷ ept_write_granted ∷ []) (emulating 0 0 0 0 0) =
      exited r1 first_main refl refl in
    let r3 = exited {s' = emulating 1 0 0 0 0} r2 cpuid_exit refl refl in
    let r4 = exited {s' = emulating 1 1 0 0 0} r3 rdmsr_exit refl refl in
    let r5 = exited {s' = emulating 1 2 0 0 0} r4 rdmsr_exit refl refl in
    let r6 = exited {s' = emulating 1 2 1 0 0} r5 wrmsr_exit refl refl in
    let r7 = exited {s' = emulating 1 2 2 0 0} r6 wrmsr_exit refl refl in
    let r8 = exited {s' = emulating 1 2 2 1 0} r7 in_exit refl refl in
    let r9 = exited {s' = emulating 1 2 2 2 0} r8 in_exit refl refl in
    let r10 = exited {s' = emulating 1 2 2 2 1} r9 out_exit refl refl in
    exited {s' = emulating 1 2 2 2 2} r10 out_exit refl refl

Session-Summary_example : Summary complete (emulating 1 2 2 2 2)
Session-Summary_example = Session-Summary complete (emulating 1 2 2 2 2) complete_run

last_main-IsWord : IsWord last_main
last_main-IsWord = record {
  rax = omega arith;
  rcx = omega arith;
  rdx = omega arith;
  physical = omega arith;
}

last_main-finishes : (decide (emulating 1 2 2 2 2) last_main).0 ≡ last_main_vmcall
unfolding decide dispatch Scenario.ept_violation is_protected_write Scenario.vmcall Emulation.cpuid
    Emulation.rdmsr Emulation.wrmsr Emulation.io Emulation.route Emulation.is_canonical_48
    Emulation.size Emulation.is_in Emulation.is_string Emulation.is_rep Emulation.port
    Emulation.out_value Scenario.exception_or_nmi InterruptionInfo.is_nmi InterruptionInfo.vector
    InterruptionInfo.is_valid Scenario.injected Scenario.expected_main_rax
    Scenario.data_page_read_back msr_bit action
last_main-finishes = refl

finished-IsComplete_example : IsComplete complete × (last_main.guest_rax ≡ guest_marker + 1)
finished-IsComplete_example =
    finished-IsComplete complete (emulating 1 2 2 2 2) last_main complete_run last_main-IsWord
      last_main-finishes

wrmsr_exit-IsWord : IsWord wrmsr_exit
wrmsr_exit-IsWord = record {
  rax = omega arith;
  rcx = omega arith;
  rdx = omega arith;
  physical = omega arith;
}

decide-Explains_example : Explains wrmsr_exit (decide granted wrmsr_exit).0
decide-Explains_example = decide-Explains granted wrmsr_exit wrmsr_exit-IsWord

decide-Justified_example :
    Justified granted last_main (decide granted last_main).0
    × Recorded granted (decide granted last_main)
decide-Justified_example = decide-Justified granted last_main last_main-IsWord

abbrev interrupted_run : List ExitInfo
interrupted_run = nmi_exit ∷ protected_write ∷ []

abbrev interrupted_end : ExitState
interrupted_end = record granted { nmis_injected = 1 }

interrupted_run-resumes : drive initial_state interrupted_run ≡ some interrupted_end
unfolding decide dispatch Scenario.ept_violation is_protected_write Scenario.vmcall Emulation.cpuid
    Emulation.rdmsr Emulation.wrmsr Emulation.io Emulation.route Emulation.is_canonical_48
    Emulation.size Emulation.is_in Emulation.is_string Emulation.is_rep Emulation.port
    Emulation.out_value Scenario.exception_or_nmi InterruptionInfo.is_nmi InterruptionInfo.vector
    InterruptionInfo.is_valid Scenario.injected Scenario.expected_main_rax
    Scenario.data_page_read_back msr_bit action drive
interrupted_run-resumes = refl

drive-without_nmi_example :
    (drive (progress initial_state) (without_nmi interrupted_run) ≡ some (progress interrupted_end))
    × ((decide (progress interrupted_end) first_main).0 ≡ (decide interrupted_end first_main).0)
drive-without_nmi_example =
    drive-without_nmi interrupted_run initial_state interrupted_end first_main
      interrupted_run-resumes refl
