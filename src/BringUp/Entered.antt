-- ===== src/BringUp/Entered.antt =====
-- What `enter_vmx` of src/bring_up/mod.rs leaves, when it is done and when it fails.
use aleph0_virtualization_hy.Base.{◌≡◌, refl, ◌∙◌, true, Result, ok, err}
use aleph0_virtualization_hy.GuestMemory.{stack_top}
use aleph0_virtualization_hy.VmExit.Stack.{top}
use aleph0_virtualization_hy.VmxOperation.{
  VmxOperation, VmxOnError, Processor, enter_vmx_root_operation, allocation_failed,
  unsupported_region_size, vm_fail_invalid, vm_fail_valid,
}
use aleph0_virtualization_hy.BringUp.Step.{
  Outcome, done, failed, panicked, Step, pure, and_then, ◌>>=◌,
}
use aleph0_virtualization_hy.BringUp.Machine.{Machine, Environment, vmxon_region}
use aleph0_virtualization_hy.BringUp.Tables.{HostTables}
use aleph0_virtualization_hy.BringUp.Teardown.{firmware, processor}
use aleph0_virtualization_hy.BringUp.Sequence.{VmxEntry, entered, enter_operation, enter_vmx}
use aleph0_virtualization_hy.BringUp.Keeps.{
  Keeps, Keeps-or_panic, Keeps-get, Keeps-read, allocate_stack-Keeps, allocate_guest-Keeps,
  allocate_bitmaps-Keeps, check_vmx_support-Keeps, build_ept-Keeps,
}

-- Done: the CPU is in VMX operation, and the firmware's tables are recorded for teardown. Failed: the
-- CPU is in VMX operation only if it was.
abbrev pub IsEntered : HostTables → Machine → Outcome VmxEntry × Machine → Type 0
IsEntered tables m (done entry, m') =
    (entry.firmware.gdtr ≡ tables.firmware_gdtr)
    × (entry.firmware.idtr ≡ tables.idtr)
    × (m'.in_vmx ≡ true)
IsEntered tables m (failed e, m') = m'.in_vmx ≡ m.in_vmx
IsEntered tables m (panicked, m') = Unit {0}

record Enters (tables : HostTables) (step : Step Machine VmxEntry) : Type 0 where
  at : (m : Machine) → IsEntered tables m (step m)

from-IsEntered :
    (tables : HostTables) (m t : Machine) (r : Outcome VmxEntry × Machine)
    → t.in_vmx ≡ m.in_vmx
    → IsEntered tables t r
    → IsEntered tables m r
from-IsEntered tables m t (done entry, m') same h = h
from-IsEntered tables m t (failed e, m') same h = h ∙ same
from-IsEntered tables m t (panicked, m') same h = tt

and_then-IsEntered :
    {A : Type 0} (tables : HostTables) (m : Machine) (r : Outcome A × Machine)
    (f : A → Step Machine VmxEntry)
    → r.1.in_vmx ≡ m.in_vmx
    → ((a : A) → Enters tables (f a))
    → IsEntered tables m (and_then r f)
and_then-IsEntered tables m (done a, t) f same rest =
    from-IsEntered tables m t (f a t) same ((rest a).at t)
and_then-IsEntered tables m (failed e, t) f same rest = same
and_then-IsEntered tables m (panicked, t) f same rest = tt

Enters-bind :
    {A : Type 0} {tables : HostTables} {step : Step Machine A} {f : A → Step Machine VmxEntry}
    → Keeps step
    → ((a : A) → Enters tables (f a))
    → Enters tables (step >>= f)
Enters-bind {tables} {step} {f} first rest = record {
  at = λ m. and_then-IsEntered tables m (step m) f (first.at m) rest;
}

module _ (env : Environment) (tables : HostTables) where
  entered-IsEntered :
      (before called : Machine) (r : Result VmxOperation VmxOnError × Processor)
      (entry : VmxOperation → VmxEntry)
      → called.in_vmx ≡ before.in_vmx
      → ((operation : VmxOperation)
          → ((entry operation).firmware.gdtr ≡ tables.firmware_gdtr)
            × ((entry operation).firmware.idtr ≡ tables.idtr))
      → IsEntered tables before
          (and_then (entered env before called r) (λ operation. pure (entry operation)))
  entered-IsEntered before called (ok operation, p) entry same recorded =
      ((recorded operation).0, (recorded operation).1, refl)
  entered-IsEntered before called (err unsupported_region_size, p) entry same recorded = refl
  entered-IsEntered before called (err allocation_failed, p) entry same recorded = same
  entered-IsEntered before called (err vm_fail_invalid, p) entry same recorded = same
  entered-IsEntered before called (err vm_fail_valid, p) entry same recorded = same

  enter_operation-Enters :
      (entry : VmxOperation → VmxEntry)
      → ((operation : VmxOperation)
          → ((entry operation).firmware.gdtr ≡ tables.firmware_gdtr)
            × ((entry operation).firmware.idtr ≡ tables.idtr))
      → Enters tables (enter_operation env >>= λ operation. pure (entry operation))
  unfolding enter_operation
  enter_operation-Enters entry recorded = record {
    at = λ m.
        let called = record m { host = env.call vmxon_region m.host } in
        entered-IsEntered m called
          (enter_vmx_root_operation (firmware env called) (processor called)) entry refl recorded;
  }

  enter_vmx-Enters : Enters tables (enter_vmx env tables)
  unfolding enter_vmx
  enter_vmx-Enters = Enters-bind (allocate_stack-Keeps env) λ stack.
      Enters-bind (Keeps-or_panic (top stack)) λ stack_end.
        Enters-bind (allocate_guest-Keeps env) λ guest.
          Enters-bind (Keeps-or_panic (stack_top guest)) λ guest_end.
            Enters-bind Keeps-read λ mappings. Enters-bind (allocate_bitmaps-Keeps env) λ bitmaps.
              Enters-bind (check_vmx_support-Keeps env) λ found.
                Enters-bind (build_ept-Keeps env guest found.1) λ identity.
                  Enters-bind Keeps-get λ now. enter_operation-Enters _ (λ operation. (refl, refl))

  pub enter_vmx-IsEntered : (m : Machine) → IsEntered tables m (enter_vmx env tables m)
  enter_vmx-IsEntered = enter_vmx-Enters.at
