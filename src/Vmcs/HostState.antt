-- ===== src/Vmcs/HostState.antt =====
-- `configure_host_state` of src/vmx/vmcs/mod.rs: the host's own state, checked and written to the VMCS.
use aleph0_virtualization_hy.Base.{
  ℕ, Bool, false, ◌||◌, List, [], ◌∷◌, ◌++◌, bit_and, ◌==◌, ◌!=◌, u32, if◌then◌else◌,
}
use aleph0_virtualization_hy.Msr.{
  ia32_sysenter_cs, ia32_sysenter_esp, ia32_sysenter_eip, ia32_pat, ia32_efer,
}
use aleph0_virtualization_hy.Segment.{Host, SegmentState, selector_rpl_ti, read_all}
use aleph0_virtualization_hy.Vmcs.{host_state_validation}
use aleph0_virtualization_hy.Vmcs.Fields.Controls.{
  vm_exit_controls, vm_exit_load_ia32_pat, vm_exit_load_ia32_efer,
}
use aleph0_virtualization_hy.Vmcs.Fields.Host
use aleph0_virtualization_hy.Vmcs.Access.{Cpu, Action, raise, ◌>>=◌, vmread, write_all}

-- `iter().any(...)`.
abbrev pub any : (ℕ → Bool) → List ℕ → Bool
any test [] = false
any test (x ∷ xs) = test x || any test xs

abbrev pub selectors : SegmentState → List ℕ
selectors state = state.es ∷ state.cs ∷ state.ss ∷ state.ds ∷ state.fs ∷ state.gs ∷ state.tr ∷ []

unfoldable pub is_refused : SegmentState → Bool
is_refused state =
    any (λ selector. bit_and selector selector_rpl_ti != 0) (selectors state)
    || ((state.cs == 0) || (state.tr == 0))

abbrev pub host_writes : Host → SegmentState → List (ℕ × ℕ)
host_writes host state =
    (Host.host_es_selector, state.es)
    ∷ (Host.host_cs_selector, state.cs)
    ∷ (Host.host_ss_selector, state.ss)
    ∷ (Host.host_ds_selector, state.ds)
    ∷ (Host.host_fs_selector, state.fs)
    ∷ (Host.host_gs_selector, state.gs)
    ∷ (Host.host_tr_selector, state.tr)
    ∷ (Host.host_cr0, host.cr0)
    ∷ (Host.host_cr3, host.cr3)
    ∷ (Host.host_cr4, host.cr4)
    ∷ (Host.host_fs_base, state.fs_base)
    ∷ (Host.host_gs_base, state.gs_base)
    ∷ (Host.host_tr_base, state.tr_base)
    ∷ (Host.host_gdtr_base, state.gdtr.base)
    ∷ (Host.host_idtr_base, state.idtr.base)
    ∷ (Host.host_ia32_sysenter_cs, u32 (host.rdmsr ia32_sysenter_cs))
    ∷ (Host.host_ia32_sysenter_esp, host.rdmsr ia32_sysenter_esp)
    ∷ (Host.host_ia32_sysenter_eip, host.rdmsr ia32_sysenter_eip)
    ∷ []

-- PAT and EFER, where the exit controls load them.
abbrev pub loaded_writes : Host → ℕ → List (ℕ × ℕ)
loaded_writes host exit_controls =
    (if bit_and exit_controls vm_exit_load_ia32_pat != 0
      then (Host.host_ia32_pat, host.rdmsr ia32_pat) ∷ []
      else [])
    ++ (if bit_and exit_controls vm_exit_load_ia32_efer != 0
        then (Host.host_ia32_efer, host.rdmsr ia32_efer) ∷ []
        else [])

abbrev pub write_host : Cpu → Host → ℕ → Action (Unit {0})
write_host cpu host exit_controls =
    write_all cpu (host_writes host (read_all host) ++ loaded_writes host exit_controls)

unfoldable pub configure_host_state : Cpu → Host → Action (Unit {0})
configure_host_state cpu host =
    if is_refused (read_all host)
    then raise host_state_validation
    else (vmread cpu vm_exit_controls >>= write_host cpu host)
