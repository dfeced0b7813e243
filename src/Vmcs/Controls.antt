-- ===== src/Vmcs/Controls.antt =====
-- `DesiredControls` and `configure_controls` of src/vmx/vmcs/mod.rs, and the capability MSRs that
-- src/vmx/msr.rs reads for them.
use aleph0_virtualization_hy.Base.{
  ℕ, ◌-◌, ◌^◌, Bool, ◌||◌, List, [], ◌∷◌, ◌++◌, map, Option, none, some, bit_and, bit_or, ◌!=◌,
  if◌then◌else◌, Result, ok, err,
}
use aleph0_virtualization_hy.Msr.{
  vmx_basic_true_controls, ia32_vmx_basic, ia32_vmx_pinbased_ctls, ia32_vmx_procbased_ctls,
  ia32_vmx_exit_ctls, ia32_vmx_entry_ctls, ia32_vmx_true_pinbased_ctls,
  ia32_vmx_true_procbased_ctls, ia32_vmx_true_exit_ctls, ia32_vmx_true_entry_ctls,
  ia32_vmx_procbased_ctls2, ia32_vmx_ept_vpid_cap,
}
use aleph0_virtualization_hy.Msr.Controls.{UnsupportedControl, allows, choose}
use aleph0_virtualization_hy.Ept.Support.{secondary_enable_ept}
use aleph0_virtualization_hy.Vmcs.{
  VmcsError, unsupported_control_value, nmi_window_exiting_unsupported,
}
use aleph0_virtualization_hy.Vmcs.Fields.Controls.{
  pin_based_vm_exec_control, primary_vm_exec_control, pin_based_nmi_exiting, pin_based_virtual_nmis,
  cpu_based_nmi_window_exiting, cpu_based_use_io_bitmaps, cpu_based_use_msr_bitmaps,
  cpu_based_activate_secondary_controls, secondary_enable_vpid, exception_bitmap,
  page_fault_error_code_mask, page_fault_error_code_match, cr3_target_count, vm_exit_controls,
  vm_exit_msr_store_count, vm_exit_msr_load_count, vm_entry_controls, vm_entry_msr_load_count,
  vm_entry_interruption_info, secondary_vm_exec_control, vm_exit_host_address_space_size,
  vm_entry_ia32e_mode_guest,
}
use aleph0_virtualization_hy.Vmcs.Access.{Cpu, Action, raise, write_all}

pub record DesiredControls : Type 0 where
  pub pin : ℕ
  pub primary : ℕ
  pub secondary : ℕ
  pub exit : ℕ
  pub entry : ℕ

abbrev pub minimal_64_bit_guest : DesiredControls
minimal_64_bit_guest = record {
  pin = bit_or pin_based_nmi_exiting pin_based_virtual_nmis;
  primary = bit_or cpu_based_use_io_bitmaps cpu_based_use_msr_bitmaps;
  secondary = secondary_enable_ept;
  exit = vm_exit_host_address_space_size;
  entry = vm_entry_ia32e_mode_guest;
}

unfoldable pub primary_request : DesiredControls → ℕ
primary_request desired =
    if desired.secondary != 0
    then bit_or desired.primary cpu_based_activate_secondary_controls
    else desired.primary

-- Every exception vector causes a VM exit.
abbrev pub exception_bitmap_all : ℕ
exception_bitmap_all = 2 ^ 32 - 1

-- A `ControlCapability` is its raw u64.
pub record VmcsControlMsrs : Type 0 where
  pub basic : ℕ
  pub pinbased : ℕ
  pub primary : ℕ
  pub exit : ℕ
  pub entry : ℕ
  pub secondary : ℕ
  pub ept_vpid_cap : ℕ

-- `rdmsr` is what the instruction reads.
unfoldable pub read_vmcs_control_msrs : (ℕ → ℕ) → VmcsControlMsrs
read_vmcs_control_msrs rdmsr =
    let basic = rdmsr ia32_vmx_basic in
    let use_true_controls = bit_and basic vmx_basic_true_controls != 0 in
    let primary =
      rdmsr (if use_true_controls then ia32_vmx_true_procbased_ctls else ia32_vmx_procbased_ctls) in
    let secondary =
      if allows primary cpu_based_activate_secondary_controls
      then rdmsr ia32_vmx_procbased_ctls2
      else 0 in
    record {
      basic = basic;
      pinbased =
          rdmsr (if use_true_controls then ia32_vmx_true_pinbased_ctls else ia32_vmx_pinbased_ctls);
      primary = primary;
      exit = rdmsr (if use_true_controls then ia32_vmx_true_exit_ctls else ia32_vmx_exit_ctls);
      entry = rdmsr (if use_true_controls then ia32_vmx_true_entry_ctls else ia32_vmx_entry_ctls);
      secondary = secondary;
      ept_vpid_cap =
          if allows secondary secondary_enable_ept || allows secondary secondary_enable_vpid
          then rdmsr ia32_vmx_ept_vpid_cap
          else 0;
    }

-- The values that `configure_controls` derives before it writes any.
pub record ChosenControls : Type 0 where
  pub pin : ℕ
  pub primary : ℕ
  pub secondary : Option ℕ
  pub exit : ℕ
  pub entry : ℕ

-- `?` on a `Result<u32, UnsupportedControl>`.
infixl 5 ◌>>=◌
abbrev pub ◌>>=◌ :
    {A B : Type 0} → Result A VmcsError → (A → Result B VmcsError) → Result B VmcsError
ok a >>= f = f a
err e >>= f = err e

abbrev pub or_unsupported : Result ℕ UnsupportedControl → Result ℕ VmcsError
or_unsupported (ok value) = ok value
or_unsupported (err e) = err unsupported_control_value

abbrev pub optional : Bool → Result ℕ VmcsError → Result (Option ℕ) VmcsError
optional wanted chosen = if wanted then (chosen >>= λ value. ok (some value)) else ok none

abbrev pub require : Bool → VmcsError → Result (Unit {0}) VmcsError
require holds e = if holds then ok tt else err e

unfoldable pub choose_controls : VmcsControlMsrs → DesiredControls → Result ChosenControls VmcsError
choose_controls capabilities desired = do
  pin ← or_unsupported (choose capabilities.pinbased desired.pin)
  primary ← or_unsupported (choose capabilities.primary (primary_request desired))
  secondary ←
      optional (desired.secondary != 0)
        (or_unsupported (choose capabilities.secondary desired.secondary))
  allowed ←
      require (allows capabilities.primary cpu_based_nmi_window_exiting)
        nmi_window_exiting_unsupported
  exit ←
      or_unsupported
        (choose capabilities.exit (bit_or desired.exit vm_exit_host_address_space_size))
  entry ← or_unsupported (choose capabilities.entry desired.entry)
  ok (record { pin = pin; primary = primary; secondary = secondary; exit = exit; entry = entry })

abbrev pub zeroed_fields : List ℕ
zeroed_fields =
    cr3_target_count ∷ vm_exit_msr_store_count ∷ vm_exit_msr_load_count ∷ vm_entry_msr_load_count
    ∷ vm_entry_interruption_info ∷ page_fault_error_code_mask ∷ page_fault_error_code_match ∷ []

abbrev pub secondary_writes : Option ℕ → List (ℕ × ℕ)
secondary_writes none = []
secondary_writes (some value) = (secondary_vm_exec_control, value) ∷ []

-- What `configure_controls` writes and verifies, in order.
abbrev pub control_writes : ChosenControls → List (ℕ × ℕ)
control_writes chosen =
    ((pin_based_vm_exec_control, chosen.pin)
      ∷ (primary_vm_exec_control, chosen.primary)
      ∷ (vm_exit_controls, chosen.exit)
      ∷ (vm_entry_controls, chosen.entry)
      ∷ [])
    ++ (secondary_writes chosen.secondary
        ++ (map (λ field. (field, 0)) zeroed_fields
            ++ ((exception_bitmap, exception_bitmap_all) ∷ [])))

unfoldable pub configure_controls : Cpu → VmcsControlMsrs → DesiredControls → Action (Unit {0})
configure_controls cpu capabilities desired = elim (choose_controls capabilities desired) [
  | err e ↦ raise e
  | ok chosen ↦ write_all cpu (control_writes chosen)
]
