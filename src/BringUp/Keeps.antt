-- ===== src/BringUp/Keeps.antt =====
-- The steps of src/bring_up/mod.rs before VMXON leave the CPU outside VMX operation, if it was.
use aleph0_virtualization_hy.Base.{
  ℕ, ◌≡◌, inl, inr, refl, ◌∙◌, ◌!=◌, ◌%◌, Option, none, some, Bool-cases, if-elim, length, ltb,
  Result, ok, err,
}
use aleph0_virtualization_hy.Ept.Entry.{page_size}
use aleph0_virtualization_hy.Ept.Publish.{Ept, Statics}
use aleph0_virtualization_hy.Ept.Support.{InveptType, EptError}
use aleph0_virtualization_hy.Ept.Tables.{Tables}
use aleph0_virtualization_hy.GuestMemory.{GuestMemory}
use aleph0_virtualization_hy.HostTables.{GdtRegion, TssRegion}
use aleph0_virtualization_hy.Segment.{DescriptorTable}
use aleph0_virtualization_hy.VmxOperation.{
  VmxCapabilities, supported, not_supported_by_cpu, disabled_by_firmware,
}
use aleph0_virtualization_hy.BringUp.Error.{BringUpError}
use aleph0_virtualization_hy.BringUp.Step.{
  Outcome, done, failed, panicked, Step, pure, fail, or_panic, and_then, ◌>>=◌,
}
use aleph0_virtualization_hy.BringUp.Machine.{
  Machine, Environment, Request, vmcs_region, allocate_zeroed_pages, given, store,
}
use aleph0_virtualization_hy.BringUp.Allocation.{
  get, update, with_revision, with_vmcs, or_creation_failed, create_current, allocate_tss,
  allocate_stack, allocate_guest_pages, allocate_guest, allocate_bitmaps,
}
use aleph0_virtualization_hy.BringUp.Tables.{activate_tables, activate_host_tables}
use aleph0_virtualization_hy.BringUp.Sequence.{detected, check_vmx_support, build_ept, built}

-- A step that keeps the CPU in or outside VMX operation, whatever it returns.
pub record Keeps {A : Type 0} (step : Step Machine A) : Type 0 where
  pub at : (m : Machine) → (step m).1.in_vmx ≡ m.in_vmx

and_then-Keeps :
    {A B : Type 0} (r : Outcome A × Machine) (f : A → Step Machine B)
    → ((a : A) → Keeps (f a))
    → (and_then r f).1.in_vmx ≡ r.1.in_vmx
and_then-Keeps (done a, m) f rest = (rest a).at m
and_then-Keeps (failed e, m) f rest = refl
and_then-Keeps (panicked, m) f rest = refl

pub Keeps-bind :
    {A B : Type 0} {step : Step Machine A} {f : A → Step Machine B}
    → Keeps step
    → ((a : A) → Keeps (f a))
    → Keeps (step >>= f)
Keeps-bind {step} {f} first rest = record { at = λ m. and_then-Keeps (step m) f rest ∙ first.at m }

pub Keeps-pure : {A : Type 0} {a : A} → Keeps (pure a)
Keeps-pure = record { at = λ m. refl }

pub Keeps-fail : {A : Type 0} {e : BringUpError} → Keeps (fail {A = A} e)
Keeps-fail = record { at = λ m. refl }

pub Keeps-or_panic : {A : Type 0} (o : Option A) → Keeps (or_panic o)
Keeps-or_panic none = record { at = λ m. refl }
Keeps-or_panic (some a) = record { at = λ m. refl }

pub Keeps-get : Keeps get
Keeps-get = record { at = λ m. refl }

Keeps-store : (change : (ℕ → ℕ) → ℕ → ℕ) → Keeps (store change)
Keeps-store change = record { at = λ m. refl }

pub Keeps-read : {A : Type 0} {result : Machine → Outcome A} → Keeps (λ m. (result m, m))
Keeps-read = record { at = λ m. refl }

allocate_zeroed_pages-given :
    (answer : Option ℕ) (count : ℕ) (e : BringUpError) → Keeps (given answer count e)
allocate_zeroed_pages-given none count e = record { at = λ m. refl }
allocate_zeroed_pages-given (some page) count e = record {
  at = λ m. elim (Bool-cases (page % page_size != 0)) [
    | inl bad ↦ rw bad refl
    | inr good ↦ rw good refl
  ];
}

update-Keeps :
    {A : Type 0} (a : A) (change : Machine → Machine)
    → ((m : Machine) → (change m).in_vmx ≡ m.in_vmx)
    → Keeps (update a change)
unfolding update
update-Keeps a change same = record { at = same }

module _ (env : Environment) where
  allocate_zeroed_pages-Keeps :
      (request : Request) (count : ℕ) (e : BringUpError)
      → Keeps (allocate_zeroed_pages env request count e)
  unfolding allocate_zeroed_pages
  allocate_zeroed_pages-Keeps request count e = record {
    at = λ m.
        (allocate_zeroed_pages-given (env.page request) count e).at
          (record m { host = env.call request m.host });
  }

  ruleset keeps_rules = (
    Keeps-bind, Keeps-pure, Keeps-fail, Keeps-or_panic, Keeps-get, Keeps-store, Keeps-read,
    allocate_zeroed_pages-Keeps,
  )

  pub allocate_stack-Keeps : Keeps (allocate_stack env)
  unfolding allocate_stack
  allocate_stack-Keeps = search keeps_rules

  allocate_tss-Keeps : Keeps (allocate_tss env)
  unfolding allocate_tss
  allocate_tss-Keeps = search keeps_rules

  allocate_guest_pages-Keeps : Keeps (allocate_guest_pages env)
  unfolding allocate_guest_pages
  allocate_guest_pages-Keeps = search keeps_rules

  pub allocate_guest-Keeps : Keeps (allocate_guest env)
  unfolding allocate_guest
  allocate_guest-Keeps =
      if-elim Keeps (ltb page_size (length env.guest_bytes)) (λ too_large. Keeps-fail)
        (λ fits. allocate_guest_pages-Keeps)

  pub allocate_bitmaps-Keeps : Keeps (allocate_bitmaps env)
  unfolding allocate_bitmaps
  allocate_bitmaps-Keeps = search keeps_rules depth 12

  detected-Keeps : (found : VmxCapabilities) → Keeps (detected found)
  unfolding detected
  detected-Keeps supported = Keeps-pure
  detected-Keeps not_supported_by_cpu = Keeps-fail
  detected-Keeps disabled_by_firmware = Keeps-fail

  pub check_vmx_support-Keeps : Keeps (check_vmx_support env)
  unfolding check_vmx_support
  check_vmx_support-Keeps = search (keeps_rules, detected-Keeps)

  built-keeps :
      (r : Option (Result (Ept × Tables × Statics) EptError)) (m : Machine)
      → (built env r m).1.in_vmx ≡ m.in_vmx
  built-keeps none m = refl
  built-keeps (some (err e)) m = refl
  built-keeps (some (ok (it, tables, statics))) m = refl

  pub build_ept-Keeps :
      (guest : GuestMemory) (invept : InveptType) → Keeps (build_ept env guest invept)
  unfolding build_ept
  build_ept-Keeps guest invept = record { at = λ m. built-keeps _ _ }

  activate_tables-Keeps :
      (region : GdtRegion) (tss : TssRegion) (gdtr : DescriptorTable) (selector : ℕ)
      → Keeps (activate_tables env region tss gdtr selector)
  unfolding activate_tables
  activate_tables-Keeps region tss gdtr selector = record { at = λ m. refl }

  -- Activating the host's tables.
  pub activate_host_tables-Keeps : Keeps (activate_host_tables env)
  unfolding activate_host_tables
  activate_host_tables-Keeps =
      search (keeps_rules, allocate_tss-Keeps, activate_tables-Keeps) depth 12

  or_creation_failed-Keeps : (rflags : Machine → ℕ) → Keeps (or_creation_failed env rflags)
  or_creation_failed-Keeps rflags = record { at = λ m. refl }

  pub create_current-Keeps : Keeps (create_current env)
  unfolding create_current
  create_current-Keeps = Keeps-bind Keeps-get λ before.
      Keeps-bind (allocate_zeroed_pages-Keeps vmcs_region 1 _) λ page.
        Keeps-bind (update-Keeps tt (with_revision page) (λ m. refl)) λ u.
          Keeps-bind (or_creation_failed-Keeps (λ m. env.vmclear page m.vmcs)) λ v.
            Keeps-bind (or_creation_failed-Keeps (λ m. env.vmptrld page m.vmcs))
              λ w. update-Keeps (record { phys_addr = page }) (with_vmcs env page) (λ m. refl)
