-- ===== src/Vmcs/Access.antt =====
-- VMREAD and VMWRITE of src/vmx/vmcs/mod.rs, and what is built on them. The current VMCS is a map from
-- field encodings to values; how the CPU answers the two instructions is a parameter.
use aleph0_virtualization_hy.Base.{
  ℕ, Bool, ◌||◌, List, [], ◌∷◌, bit_and, bit_or, not64, ◌==◌, ◌!=◌, u32, if◌then◌else◌, Result, ok,
  err,
}
use aleph0_virtualization_hy.Instruction.{VmxFail, check_rflags}
use aleph0_virtualization_hy.Vmcs.{VmcsError, from_fail, readback_mismatch, host_state_validation}
use aleph0_virtualization_hy.Vmcs.Fields.Controls.{
  primary_vm_exec_control, cpu_based_nmi_window_exiting, ept_pointer,
}
use aleph0_virtualization_hy.Vmcs.Fields.Exits.{vm_instruction_error}
use aleph0_virtualization_hy.Vmcs.Fields.Guest.{guest_rip}
use aleph0_virtualization_hy.Vmcs.Fields.Host.{host_rsp, host_rip}

-- The current VMCS: the value that each field encoding holds.
abbrev pub Vmcs : Type 0
Vmcs = ℕ → ℕ

-- The RFLAGS that VMREAD and VMWRITE of a field leave, and what a field keeps of a value.
pub record Cpu : Type 0 where
  pub read_flags : ℕ → ℕ
  pub write_flags : ℕ → ℕ
  pub kept : ℕ → ℕ → ℕ

-- A call on the current VMCS; what was written stays written when it fails.
abbrev pub Action : Type 0 → Type 0
Action A = Vmcs → Result A VmcsError × Vmcs

module _ {A : Type 0} where
  abbrev pub pure : A → Action A
  pure a s = (ok a, s)

  abbrev pub raise : VmcsError → Action A
  raise e s = (err e, s)

abbrev pub and_then :
    {A B : Type 0} → Result A VmcsError × Vmcs → (A → Action B) → Result B VmcsError × Vmcs
and_then (ok a, s) f = f a s
and_then (err e, s) f = (err e, s)

infixl 5 ◌>>=◌ ◌>>◌
abbrev pub ◌>>=◌ : {A B : Type 0} → Action A → (A → Action B) → Action B
◌>>=◌ m f s = and_then (m s) f

abbrev pub ◌>>◌ : {B : Type 0} → Action (Unit {0}) → Action B → Action B
m >> k = m >>= λ _. k

-- The VMCS with one field changed.
abbrev pub write_field : Vmcs → ℕ → ℕ → Vmcs
write_field s field value other = if other == field then value else s other

-- `check_rflags(rflags)?` in a function that fails with a `VmcsError`.
abbrev pub checked_by : {A : Type 0} → Result (Unit {0}) VmxFail → A → Result A VmcsError
checked_by (ok done) a = ok a
checked_by (err e) a = err (from_fail e)

abbrev pub store_if : Result (Unit {0}) VmxFail → Vmcs → ℕ → ℕ → Vmcs
store_if (ok done) s field value = write_field s field value
store_if (err e) s field value = s

module _ (cpu : Cpu) where
  unfoldable pub vmread : ℕ → Action ℕ
  vmread field s = (checked_by (check_rflags (cpu.read_flags field)) (s field), s)

  unfoldable pub vmwrite : ℕ → ℕ → Action (Unit {0})
  vmwrite field value s = (
    checked_by (check_rflags (cpu.write_flags field)) tt,
    store_if (check_rflags (cpu.write_flags field)) s field (cpu.kept field value),
  )

  unfoldable pub write_verified : ℕ → ℕ → Action (Unit {0})
  write_verified field value = do
    vmwrite field value
    read ← vmread field
    if read != value then raise (readback_mismatch field value read) else pure tt

  -- A run of statements `write_verified(field, value)?`, one for each pair.
  unfoldable pub write_all : List (ℕ × ℕ) → Action (Unit {0})
  write_all [] = pure tt
  write_all ((field, value) ∷ rest) = write_verified field value >> write_all rest

  unfoldable pub configure_host_entry : ℕ → ℕ → Action (Unit {0})
  configure_host_entry stack_top entry_address =
      if (stack_top == 0) || ((bit_and stack_top 15 != 0) || (entry_address == 0))
      then raise host_state_validation
      else write_all ((host_rsp, stack_top) ∷ (host_rip, entry_address) ∷ [])

  unfoldable pub set_ept_pointer : ℕ → Action (Unit {0})
  set_ept_pointer eptp = write_verified ept_pointer eptp

  -- `vm_instruction_error`.
  unfoldable pub instruction_error : Action ℕ
  instruction_error = do code ← vmread vm_instruction_error; pure (u32 code)

  unfoldable pub self_test : Action (Unit {0})
  self_test = write_verified guest_rip 0x0000_7FFF_DEAD_BEEF

unfoldable pub with_nmi_window_exiting : ℕ → Bool → ℕ
with_nmi_window_exiting primary on =
    if on
    then bit_or primary cpu_based_nmi_window_exiting
    else bit_and primary (not64 cpu_based_nmi_window_exiting)

unfoldable pub set_nmi_window_exiting : Cpu → Bool → Action (Unit {0})
set_nmi_window_exiting cpu on = do
  primary ← vmread cpu primary_vm_exec_control
  vmwrite cpu primary_vm_exec_control (with_nmi_window_exiting primary on)
