-- ===== src/VmExit/Machine.antt =====
-- What the handler of src/vmx/vmexit/handler.rs reads and changes: the guest's registers on the exit
-- stack, the current VMCS, memory, MSRs, ports, and its own statics. What the CPU and the devices
-- answer is a parameter.
use aleph0_virtualization_hy.Base.{ℕ, Bool, false, List, Option, none, some, Result, ok, err}
use aleph0_virtualization_hy.Vmcs.Access.{Vmcs, Cpu, Action}
use aleph0_virtualization_hy.Ept.Support.{InveptType}
use aleph0_virtualization_hy.Ept.Publish.{Statics}
use aleph0_virtualization_hy.ExitDecision.Types.{IoSize}
use aleph0_virtualization_hy.ExitDecision.Emulation.{CpuidResult}

-- `RegisterFrame` of src/vmx/vmexit/mod.rs.
pub record RegisterFrame : Type 0 where
  pub rax : ℕ
  pub rbx : ℕ
  pub rcx : ℕ
  pub rdx : ℕ
  pub rsi : ℕ
  pub rdi : ℕ
  pub rbp : ℕ
  pub r8 : ℕ
  pub r9 : ℕ
  pub r10 : ℕ
  pub r11 : ℕ
  pub r12 : ℕ
  pub r13 : ℕ
  pub r14 : ℕ
  pub r15 : ℕ

-- The atomics of the handler, as one record of their values.
pub record Kept : Type 0 where
  pub exit_count : ℕ
  pub main_vmcalls : ℕ
  pub nmi_pending : Bool
  pub nmis_injected : ℕ
  pub nmis_handled : ℕ
  pub ept_writes_granted : ℕ
  pub emulated_cpuid : ℕ
  pub emulated_rdmsr : ℕ
  pub emulated_wrmsr : ℕ
  pub emulated_in : ℕ
  pub emulated_out : ℕ

abbrev pub initially : Kept
initially = record {
  exit_count = 0;
  main_vmcalls = 0;
  nmi_pending = false;
  nmis_injected = 0;
  nmis_handled = 0;
  ept_writes_granted = 0;
  emulated_cpuid = 0;
  emulated_rdmsr = 0;
  emulated_wrmsr = 0;
  emulated_in = 0;
  emulated_out = 0;
}

-- One OUT: port, size, value.
abbrev pub Output : Type 0
Output = ℕ × IoSize × ℕ

pub record Machine : Type 0 where
  pub vmcs : Vmcs
  pub frame : RegisterFrame
  pub memory : ℕ → ℕ
  pub msrs : ℕ → ℕ
  pub outputs : List Output
  pub ept : Statics
  pub kept : Kept

-- The answers of the CPU and the devices. What a port reads may depend on what was written before.
pub record Devices : Type 0 where
  pub cpu : Cpu
  pub cpuid_count : ℕ → ℕ → CpuidResult
  pub port_in : List Output → ℕ → IoSize → ℕ
  -- RFLAGS after INVEPT
  pub invept : InveptType → ℕ → ℕ

-- A step that can give up, after it has printed why; what it changed stays changed.
abbrev pub Step : Type 0 → Type 0
Step A = Machine → Option A × Machine

module _ {A : Type 0} where
  abbrev pub pure : A → Step A
  pure a m = (some a, m)

  abbrev pub give_up : Step A
  give_up m = (none, m)

  -- `let Some(a) = o else { return None }`.
  abbrev pub or_give_up : Option A → Step A
  or_give_up o m = (o, m)

abbrev pub and_then : {A B : Type 0} → Option A × Machine → (A → Step B) → Option B × Machine
and_then (some a, m) f = f a m
and_then (none, m) f = (none, m)

infixl 5 ◌>>=◌ ◌>>◌
abbrev pub ◌>>=◌ : {A B : Type 0} → Step A → (A → Step B) → Step B
◌>>=◌ step f m = and_then (step m) f

abbrev pub ◌>>◌ : {B : Type 0} → Step (Unit {0}) → Step B → Step B
step >> next = step >>= λ _. next

abbrev pub to_option {κ} : {A : Type 0} {E : Type κ} → Result A E → Option A
to_option (ok a) = some a
to_option (err e) = none

-- A call on the VMCS whose failure ends the step.
abbrev pub on_vmcs : {A : Type 0} → Action A → Step A
on_vmcs action m = (to_option (action m.vmcs).0, record m { vmcs = (action m.vmcs).1 })
