-- ===== src/VmExit/Effects/Planned.antt =====
-- What a resume plan of src/vmx/exit_decision/mod.rs asks of the VMCS, field by field.
use aleph0_virtualization_hy.Base.{
  ℕ, ◌+◌, ◌*◌, ◌/◌, ◌%◌, ◌^◌, ◌<◌, ◌≡◌, ◌⊎◌, inl, inr, refl, ap, Bool, true, false, Option, none,
  some, arith, u64, if◌then◌else◌,
}
use aleph0_virtualization_hy.ExitDecision.InterruptionInfo.{nmi, general_protection}
use aleph0_virtualization_hy.Vmcs.Access.{Vmcs, write_field, with_nmi_window_exiting}
use aleph0_virtualization_hy.Vmcs.Window.{with_nmi_window_exiting_lem}
use aleph0_virtualization_hy.Vmcs.Fields.Controls.{
  primary_vm_exec_control, vm_entry_interruption_info, vm_entry_exception_error_code,
}
use aleph0_virtualization_hy.Vmcs.Fields.Guest.{guest_rip}

abbrev pub write_if : Bool → Vmcs → ℕ → ℕ → Vmcs
write_if wanted s field value = if wanted then write_field s field value else s

abbrev pub with_window : Option Bool → Vmcs → Vmcs
with_window (some on) s =
    write_field s primary_vm_exec_control (with_nmi_window_exiting (s primary_vm_exec_control) on)
with_window none s = s

-- RIP moves when there is a length.
abbrev pub moved : ℕ → Option ℕ → Vmcs → Vmcs
moved rip (some length) s = write_field s guest_rip (u64 (rip + length))
moved rip none s = s

abbrev pub with_fault : Bool → Vmcs → Vmcs
with_fault wanted s =
    if wanted
    then write_field (write_field s vm_entry_exception_error_code 0) vm_entry_interruption_info
        general_protection
    else s

abbrev pub with_event : Bool → Bool → Vmcs → Vmcs
with_event inject_nmi inject_gp s =
    with_fault inject_gp (write_if inject_nmi s vm_entry_interruption_info nmi)

pub event_fields :
    (inject_nmi inject_gp : Bool) (s : Vmcs)
    → (with_event inject_nmi inject_gp s guest_rip ≡ s guest_rip)
      × (with_event inject_nmi inject_gp s vm_entry_interruption_info ≡ (
          if inject_gp
          then general_protection
          else if inject_nmi
          then nmi
          else s vm_entry_interruption_info))
      × (with_event inject_nmi inject_gp s vm_entry_exception_error_code
          ≡ (if inject_gp then 0 else s vm_entry_exception_error_code))
      × (with_event inject_nmi inject_gp s primary_vm_exec_control ≡ s primary_vm_exec_control)
event_fields true true s = (refl, refl, refl, refl)
event_fields true false s = (refl, refl, refl, refl)
event_fields false true s = (refl, refl, refl, refl)
event_fields false false s = (refl, refl, refl, refl)

pub moved_fields :
    (advance : Bool) (rip n : ℕ) (length : Option ℕ) (s : Vmcs)
    → (advance ≡ false) ⊎ (length ≡ some n)
    → let after : Vmcs = moved rip (if advance then length else none) s in
      (after guest_rip ≡ (if advance then u64 (rip + n) else s guest_rip))
      × (after vm_entry_interruption_info ≡ s vm_entry_interruption_info)
      × (after vm_entry_exception_error_code ≡ s vm_entry_exception_error_code)
      × (after primary_vm_exec_control ≡ s primary_vm_exec_control)
moved_fields false rip n length s h = (refl, refl, refl, refl)
moved_fields true rip n (some k) s (inr e) =
    let same : k ≡ n = cc in (ap (λ (x : ℕ). u64 (rip + x)) same, refl, refl, refl)
moved_fields true rip n none s (inr e) = absurd cc
moved_fields true rip n length s (inl e) = absurd cc

pub moved_primary :
    (rip : ℕ) (by : Option ℕ) (s : Vmcs)
    → moved rip by s primary_vm_exec_control ≡ s primary_vm_exec_control
moved_primary rip (some n) s = refl
moved_primary rip none s = refl

pub window_fields :
    (window : Option Bool) (s : Vmcs)
    → (with_window window s guest_rip ≡ s guest_rip)
      × (with_window window s vm_entry_interruption_info ≡ s vm_entry_interruption_info)
      × (with_window window s vm_entry_exception_error_code ≡ s vm_entry_exception_error_code)
window_fields (some on) s = (refl, refl, refl)
window_fields none s = (refl, refl, refl)

-- The primary controls, of which only bit 22 may change.
abbrev pub window_controls : Option Bool → ℕ → ℕ
window_controls none primary = primary
window_controls (some on) primary =
    primary / 2 ^ 23 * 2 ^ 23 + ((if on then 2 ^ 22 else 0) + primary % 2 ^ 22)

pub window_primary :
    (window : Option Bool) (s : Vmcs)
    → s primary_vm_exec_control < 2 ^ 32
    → with_window window s primary_vm_exec_control
      ≡ window_controls window (s primary_vm_exec_control)
window_primary none s fits = refl
window_primary (some on) s fits =
    with_nmi_window_exiting_lem (s primary_vm_exec_control) on (omega arith)
