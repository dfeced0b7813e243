-- ===== src/VmExit/Confined.antt =====
-- What a call of `vmexit_handler` in src/vmx/vmexit/handler.rs cannot change, and the exit that it
-- cannot read.
use aleph0_virtualization_hy.Base.{ℕ, ◌≡◌, refl, ap, true, false, Option, none, arith, ◌==◌}
use aleph0_virtualization_hy.ExitDecision.Types.{ExitInfo, ExitEvent, Emulation, action}
use aleph0_virtualization_hy.Ept.Publish.{Statics}
use aleph0_virtualization_hy.Vmcs.Writes.{write_field_ne}
use aleph0_virtualization_hy.Vmcs.Launch.{encode_unexpected}
use aleph0_virtualization_hy.Vmcs.Launch
use aleph0_virtualization_hy.VmExit.Machine.{RegisterFrame, Machine, Devices}
use aleph0_virtualization_hy.VmExit.Execute.{execute}
use aleph0_virtualization_hy.VmExit.State.{load_state, store_state, judged, judge}
use aleph0_virtualization_hy.VmExit.Reading.{read_exit}
use aleph0_virtualization_hy.VmExit.Handler.{count_exit, apply, vmexit_handler}
use aleph0_virtualization_hy.VmExit.Handled.{counted, judgement}
use aleph0_virtualization_hy.VmExit.Unchanged.{is_written_field, IsBlind, Leaves-carry_out}

execute-fields :
    (devices : Devices) (field : ℕ) (m : Machine) (emulation : Emulation)
    → (execute devices emulation m).1.vmcs field ≡ m.vmcs field
unfolding execute
execute-fields devices field m (Emulation.cpuid leaf subleaf) = refl
execute-fields devices field m (Emulation.rdmsr msr) = refl
execute-fields devices field m (Emulation.wrmsr msr value) = refl
execute-fields devices field m (Emulation.io_in port size) = refl
execute-fields devices field m (Emulation.io_out port size value) = refl

-- Equal tests on a field tell two fields apart.
apart : (f g : ℕ) → is_written_field f ≡ true → is_written_field g ≡ false → (g == f) ≡ false
apart f g h k = ground arith

field-IsBlind :
    (devices : Devices) (field : ℕ)
    → is_written_field field ≡ false
    → IsBlind devices (λ m. m.vmcs field)
field-IsBlind devices field other = record {
  writes = λ m f v h. write_field_ne m.vmcs f v field (apart f field h other);
  memory = λ m memory. refl;
  emulates = λ m emulation. execute-fields devices field m emulation;
}

-- The registers that no emulated instruction writes.
pub record Callee : Type 0 where
  pub rsi : ℕ
  pub rdi : ℕ
  pub rbp : ℕ
  pub r8 : ℕ
  pub r9 : ℕ
  pub r10 : ℕ
  pub r11 : ℕ
  pub r12 : ℕ
  pub r13 : ℕ
  pub r14 : ℕ
  pub r15 : ℕ

abbrev pub callee : RegisterFrame → Callee
callee f = record {
  rsi = f.rsi;
  rdi = f.rdi;
  rbp = f.rbp;
  r8 = f.r8;
  r9 = f.r9;
  r10 = f.r10;
  r11 = f.r11;
  r12 = f.r12;
  r13 = f.r13;
  r14 = f.r14;
  r15 = f.r15;
}

-- The registers and the statics that only others write.
abbrev pub aside : Machine → Callee × Statics
aside m = (callee m.frame, m.ept)

execute-aside :
    (devices : Devices) (m : Machine) (emulation : Emulation)
    → aside (execute devices emulation m).1 ≡ aside m
unfolding execute
execute-aside devices m (Emulation.cpuid leaf subleaf) = refl
execute-aside devices m (Emulation.rdmsr msr) = refl
execute-aside devices m (Emulation.wrmsr msr value) = refl
execute-aside devices m (Emulation.io_in port size) = refl
execute-aside devices m (Emulation.io_out port size value) = refl

aside-IsBlind : (devices : Devices) → IsBlind devices aside
aside-IsBlind devices = record {
  writes = λ m f v h. refl;
  memory = λ m memory. refl;
  emulates = execute-aside devices;
}

module _ (devices : Devices) (m : Machine) where
  seen :
      {X : Type 0} (view : Machine → X)
      → IsBlind devices view
      → view (vmexit_handler devices m).1
        ≡ view (record m { kept = store_state (judgement devices m).1 (count_exit m.kept) })
  unfolding vmexit_handler judge apply load_state
  seen view blind =
      Leaves-carry_out view devices blind (action (judgement devices m).0)
        (read_exit devices (counted m))
        (record m { kept = store_state (judgement devices m).1 (count_exit m.kept) })

  -- Whatever the exit, the handler writes no field of the VMCS but GUEST_RIP, the two VM-entry event
  -- fields and the primary controls; it writes none of the guest's registers RSI, RDI, RBP and R8 to
  -- R15, and none of the statics that publish the protected page.
  pub vmexit_handler-confined :
      (field : ℕ)
      → is_written_field field ≡ false
      → ((vmexit_handler devices m).1.vmcs field ≡ m.vmcs field)
        × (aside (vmexit_handler devices m).1 ≡ aside m)
  vmexit_handler-confined field other = (
    seen (λ x. x.vmcs field) (field-IsBlind devices field other),
    seen aside (aside-IsBlind devices),
  )

  judged-none :
      (exit : Option ExitInfo)
      → exit ≡ none
      → judged exit (load_state m.kept) ≡ (ExitEvent.unexpected, load_state m.kept)
  judged-none exit h = ap (λ o. judged o (load_state m.kept)) h
