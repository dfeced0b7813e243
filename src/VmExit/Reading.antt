-- ===== src/VmExit/Reading.antt =====
-- `read_exit` of src/vmx/vmexit/handler.rs, and the reads of src/vmx/vmexit/report.rs that it uses.
-- Printing is not modelled, nor a field that is read only to be printed.
use aleph0_virtualization_hy.Base.{
  ℕ, Bool, false, not, ◌&&◌, ◌||◌, Option, none, some, ◌==◌, u32, if◌then◌else◌,
}
use aleph0_virtualization_hy.Vmcs.Access.{vmread}
use aleph0_virtualization_hy.Vmcs.Fields.Exits.{
  vm_exit_reason, vm_exit_interruption_info, idt_vectoring_info, vm_exit_instruction_len,
  exit_qualification, guest_physical_address,
}
use aleph0_virtualization_hy.Vmcs.Fields.Guest.{guest_interruptibility_state, guest_rip}
use aleph0_virtualization_hy.Ept.Publish.{ProtectedPage, protected_page}
use aleph0_virtualization_hy.ExitDecision.Types.{
  ExitReason, from_raw, ExitInfo, exit_reason_ept_violation, exit_reason_ept_misconfig,
  exit_reason_io_instruction,
}
use aleph0_virtualization_hy.ExitDecision.InterruptionInfo.{is_valid}
use aleph0_virtualization_hy.VmExit.Machine.{RegisterFrame, Machine, Devices, to_option}

pub record ExitRead : Type 0 where
  pub raw_reason : Option ℕ
  pub exit : Option ExitInfo
  pub rip : Option ℕ
  pub length : Option ℕ
  pub protected : Option ProtectedPage

infixl 5 ◌>>=◌
abbrev pub ◌>>=◌ : {A B : Type 0} → Option A → (A → Option B) → Option B
some a >>= f = f a
none >>= f = none

abbrev pub unwrap_or : ℕ → Option ℕ → ℕ
unwrap_or default (some value) = value
unwrap_or default none = default

-- `Option::map(ExitReason::from_raw)`.
abbrev pub reason_of : Option ℕ → Option ExitReason
reason_of (some raw) = some (from_raw raw)
reason_of none = none

abbrev pub is_some_and : (ExitReason → Bool) → Option ExitReason → Bool
is_some_and test (some reason) = test reason
is_some_and test none = false

abbrev pub is_ept_exit : ExitReason → Bool
is_ept_exit reason =
    not reason.entry_failure
    && ((reason.basic == exit_reason_ept_violation) || (reason.basic == exit_reason_ept_misconfig))

abbrev pub is_io_exit : ExitReason → Bool
is_io_exit reason = not reason.entry_failure && (reason.basic == exit_reason_io_instruction)

abbrev pub gpa_or_zero : Option ProtectedPage → ℕ
gpa_or_zero (some page) = page.gpa
gpa_or_zero none = 0

abbrev pub low_32 : Option ℕ → Option ℕ
low_32 (some raw) = some (u32 raw)
low_32 none = none

-- The `match` at the end of `read_exit`: every part is there, or the exit cannot be judged.
abbrev pub exit_info :
    RegisterFrame
    → Option ProtectedPage
    → Option ExitReason
    → Option ℕ
    → Option ℕ
    → Option ℕ
    → Option ℕ
    → Option ℕ
    → Option ExitInfo
exit_info frame protected reason info blocking vectoring qualification guest_physical = do
  r ← reason
  i ← info
  b ← blocking
  v ← vectoring
  q ← qualification
  g ← guest_physical
  some (record {
    reason = r;
    interruption_info = u32 i;
    guest_rax = frame.rax;
    guest_rcx = frame.rcx;
    guest_rdx = frame.rdx;
    interruptibility = u32 b;
    idt_vectoring_valid = is_valid (u32 v);
    qualification = q;
    guest_physical = g;
    protected_page = gpa_or_zero protected;
  })

module _ (devices : Devices) (m : Machine) where
  unfoldable pub read_or_report : ℕ → Option ℕ
  read_or_report field = to_option (vmread devices.cpu field m.vmcs).0

  unfoldable pub read_exit : ExitRead
  read_exit =
      let raw_reason = low_32 (read_or_report vm_exit_reason) in
      let reason = reason_of raw_reason in
      let read_qualification = read_or_report exit_qualification in
      let ept_exit = is_some_and is_ept_exit reason in
      let guest_physical = if ept_exit then read_or_report guest_physical_address else some 0 in
      let judged_by_qualification = ept_exit || is_some_and is_io_exit reason in
      let qualification =
        if judged_by_qualification
        then read_qualification
        else some (unwrap_or 0 read_qualification) in
      let protected = protected_page m.ept in
      record {
        raw_reason = raw_reason;
        exit =
            exit_info m.frame protected reason (read_or_report vm_exit_interruption_info)
              (read_or_report guest_interruptibility_state) (read_or_report idt_vectoring_info)
              qualification guest_physical;
        rip = read_or_report guest_rip;
        length = read_or_report vm_exit_instruction_len;
        protected = protected;
      }
