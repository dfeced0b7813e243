-- ===== src/BringUp/Prepare.antt =====
-- `prepare_vmcs` of src/bring_up/mod.rs: everything that is written to the VMCS before the launch. The
-- state of its steps is the current VMCS.
use Prim.Native.String.{String}
use aleph0_virtualization_hy.Base.{ℕ}
use aleph0_virtualization_hy.Ept.Publish.{Ept}
use aleph0_virtualization_hy.ExitBitmaps.Region.{ExitBitmaps, write_to_vmcs}
use aleph0_virtualization_hy.GuestMemory.{GuestMemory, idt, stack_top}
use aleph0_virtualization_hy.GuestState.{GuestState, from_current, write}
use aleph0_virtualization_hy.Segment.{Host}
use aleph0_virtualization_hy.Vmcs.Access.{
  Vmcs, Cpu, Action, vmread, self_test, set_ept_pointer, configure_host_entry,
}
use aleph0_virtualization_hy.Vmcs.Controls.{
  VmcsControlMsrs, minimal_64_bit_guest, configure_controls,
}
use aleph0_virtualization_hy.Vmcs.Fields.Controls.{vm_exit_controls}
use aleph0_virtualization_hy.Vmcs.HostState.{configure_host_state}
use aleph0_virtualization_hy.VmExit.Stack.{VmExitStack, top}
use aleph0_virtualization_hy.BringUp.Error.{vmcs_step, guest_state_error}
use aleph0_virtualization_hy.BringUp.Step.{outcome, Step, or_panic, ◌>>=◌, ◌>>◌}

module _ (cpu : Cpu) where
  -- `.map_err(vmcs_step(operation))?`.
  unfoldable pub tagged : {A : Type 0} → String → Action A → Step Vmcs A
  tagged operation action s = let (r, s') = action s in (outcome (vmcs_step cpu s' operation) r, s')

  -- `.map_err(guest_state_error)?`, of a call that only reads the VMCS and of one that writes it.
  unfoldable pub captured : Host → ℕ → ℕ → GuestMemory → Step Vmcs GuestState
  captured host code stack guest s =
      (outcome (guest_state_error cpu s) (from_current host cpu s code stack (idt guest)), s)

  unfoldable pub stored : GuestState → Step Vmcs (Unit {0})
  stored state s = let (r, s') = write cpu state s in (outcome (guest_state_error cpu s') r, s')

  -- `entry_address` is the address of the entry stub.
  unfoldable pub prepare_vmcs :
      Host
      → ℕ
      → VmcsControlMsrs
      → VmExitStack
      → GuestMemory
      → Ept
      → ExitBitmaps
      → Step Vmcs (Unit {0})
  prepare_vmcs host entry_address controls stack guest ept bitmaps = do
    tagged "self-test" (self_test cpu)
    tagged "control setup" (configure_controls cpu controls minimal_64_bit_guest)
    tagged "EPT pointer setup" (set_ept_pointer cpu ept.eptp)
    tagged "exit bitmap setup" (write_to_vmcs cpu bitmaps)
    tagged "host-state setup" (configure_host_state cpu host)
    exit_controls ← tagged "exit-control readback" (vmread cpu vm_exit_controls)
    host_rsp ← or_panic (top stack)
    tagged "host entry address setup" (configure_host_entry cpu host_rsp entry_address)
    guest_rsp ← or_panic (stack_top guest)
    guest_state ← captured host guest.code guest_rsp guest
    stored guest_state
