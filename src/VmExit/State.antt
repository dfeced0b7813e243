-- ===== src/VmExit/State.antt =====
-- `load_state`, `store_state` and `judge` of src/vmx/vmexit/handler.rs.
use aleph0_virtualization_hy.Base.{Option, none, some}
use aleph0_virtualization_hy.ExitDecision.Types.{ExitInfo, ExitState, ExitEvent}
use aleph0_virtualization_hy.ExitDecision.Decide.{decide}
use aleph0_virtualization_hy.VmExit.Machine.{Kept}

unfoldable pub load_state : Kept → ExitState
load_state kept = record {
  main_vmcalls = kept.main_vmcalls;
  nmi_pending = kept.nmi_pending;
  nmis_injected = kept.nmis_injected;
  nmis_handled = kept.nmis_handled;
  ept_writes_granted = kept.ept_writes_granted;
  emulated = record {
    cpuid = kept.emulated_cpuid;
    rdmsr = kept.emulated_rdmsr;
    wrmsr = kept.emulated_wrmsr;
    io_in = kept.emulated_in;
    io_out = kept.emulated_out;
  };
}

unfoldable pub store_state : ExitState → Kept → Kept
store_state state kept = record {
  exit_count = kept.exit_count;
  main_vmcalls = state.main_vmcalls;
  nmi_pending = state.nmi_pending;
  nmis_injected = state.nmis_injected;
  nmis_handled = state.nmis_handled;
  ept_writes_granted = state.ept_writes_granted;
  emulated_cpuid = state.emulated.cpuid;
  emulated_rdmsr = state.emulated.rdmsr;
  emulated_wrmsr = state.emulated.wrmsr;
  emulated_in = state.emulated.io_in;
  emulated_out = state.emulated.io_out;
}

-- What `judge` decides from the state it loads.
abbrev pub judged : Option ExitInfo → ExitState → ExitEvent × ExitState
judged (some exit) state = decide state exit
judged none state = (ExitEvent.unexpected, state)

-- `judge`: the event and the next state, which it has stored.
unfoldable pub judge : Option ExitInfo → Kept → (ExitEvent × ExitState) × Kept
judge exit kept = let result = judged exit (load_state kept) in (result, store_state result.1 kept)
