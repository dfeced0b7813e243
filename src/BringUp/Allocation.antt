-- ===== src/BringUp/Allocation.antt =====
-- The allocations of bring-up, and what they write to their pages: src/vmx/host_tables.rs, vmexit/mod.rs,
-- guest.rs, exit_bitmaps.rs and vmcs/mod.rs.
use aleph0_virtualization_hy.Base.{ℕ, ◌+◌, read_bytes, length, ltb, to_le_bytes, if◌then◌else◌}
use aleph0_virtualization_hy.Instruction.{check_rflags}
use aleph0_virtualization_hy.Ept.Entry.{page_size}
use aleph0_virtualization_hy.ExitBitmaps.{Pages, fill}
use aleph0_virtualization_hy.ExitBitmaps.Region.{ExitBitmaps}
use aleph0_virtualization_hy.Guest.{guest_data_seed}
use aleph0_virtualization_hy.GuestMemory.{
  GuestMemory, code_too_large, code_allocation_failed, stack_allocation_failed,
  idt_allocation_failed, interrupt_gate, nmi_gate_offset, nmi_handler, data_page,
}
use aleph0_virtualization_hy.HostTables.{TssRegion, tss_size, write_bytes}
use aleph0_virtualization_hy.Vmcs
use aleph0_virtualization_hy.Vmcs.{VmcsError, from_fail}
use aleph0_virtualization_hy.VmExit.Stack.{VmExitStack, vm_exit_stack_pages}
use aleph0_virtualization_hy.VmxOperation.{VmxRegion, vmcs_revision_id, write_u32}
use aleph0_virtualization_hy.BringUp.Error.{
  BringUpError, TssError, VmExitStackError, ExitBitmapsError, tss, vm_exit_stack, guest_memory,
  exit_bitmaps, vmcs_step,
}
use aleph0_virtualization_hy.BringUp.Step.{Step, outcome, pure, fail, or_panic, ◌>>=◌, ◌>>◌}
use aleph0_virtualization_hy.BringUp.Machine.{
  Machine, Environment, allocate_zeroed_pages, store, tss_page, exit_stack, guest_code, guest_stack,
  guest_idt, msr_page, io_a_page, io_b_page, vmcs_region,
}

-- Offset of `iomap_base` in `Tss`.
abbrev pub iomap_base_offset : ℕ
iomap_base_offset = 0x66

-- A current machine, read.
abbrev pub get : Step Machine Machine
get m = pure m m

abbrev pub fill_memory : ExitBitmaps → Pages → (ℕ → ℕ) → ℕ → ℕ
fill_memory bitmaps pages memory =
    write_bytes (write_bytes (write_bytes memory bitmaps.msr pages.msr) bitmaps.io_a pages.io_a)
      bitmaps.io_b pages.io_b

unfoldable pub update : {A : Type 0} → A → (Machine → Machine) → Step Machine A
update a change m = pure a (change m)

-- The revision identifier at the start of a region.
abbrev pub with_revision : ℕ → Machine → Machine
with_revision page m = record m {
  regions = write_u32 m.regions page (vmcs_revision_id m.host.rdmsr);
}

module _ (env : Environment) where
  -- `TssRegion::allocate`.
  unfoldable pub allocate_tss : Step Machine TssRegion
  allocate_tss = do
    page ← allocate_zeroed_pages env tss_page 1 (tss TssError.allocation_failed)
    store (λ memory. write_bytes memory (page + iomap_base_offset) (to_le_bytes 2 tss_size))
    pure (record { base = page })

  -- `VmExitStack::allocate`.
  unfoldable pub allocate_stack : Step Machine VmExitStack
  allocate_stack = do
    base ←
        allocate_zeroed_pages env exit_stack vm_exit_stack_pages
          (vm_exit_stack VmExitStackError.allocation_failed)
    pure (record { base = base })

  -- `GuestMemory::allocate`, once the code is known to fit.
  unfoldable pub allocate_guest_pages : Step Machine GuestMemory
  allocate_guest_pages = do
    code ← allocate_zeroed_pages env guest_code 2 (guest_memory code_allocation_failed)
    stack ← allocate_zeroed_pages env guest_stack 1 (guest_memory stack_allocation_failed)
    idt ← allocate_zeroed_pages env guest_idt 1 (guest_memory idt_allocation_failed)
    store (λ memory. write_bytes memory code env.guest_bytes)
    let guest : GuestMemory = record { code = code; stack = stack; idt = idt }
    store (λ memory. write_bytes memory (data_page guest) (to_le_bytes 4 guest_data_seed))
    now ← get
    store (λ memory.
        write_bytes memory (idt + nmi_gate_offset)
          (interrupt_gate (nmi_handler guest env.nmi_handler_offset) now.host.cs))
    pure guest

  unfoldable pub allocate_guest : Step Machine GuestMemory
  allocate_guest =
      if ltb page_size (length env.guest_bytes)
      then fail (guest_memory code_too_large)
      else allocate_guest_pages

  -- `ExitBitmaps::allocate`.
  unfoldable pub allocate_bitmaps : Step Machine ExitBitmaps
  allocate_bitmaps = do
    msr ← allocate_zeroed_pages env msr_page 1 (exit_bitmaps ExitBitmapsError.allocation_failed)
    io_a ← allocate_zeroed_pages env io_a_page 1 (exit_bitmaps ExitBitmapsError.allocation_failed)
    io_b ← allocate_zeroed_pages env io_b_page 1 (exit_bitmaps ExitBitmapsError.allocation_failed)
    now ← get
    pages ← or_panic (
        fill (read_bytes now.host.memory msr page_size) (read_bytes now.host.memory io_a page_size)
          (read_bytes now.host.memory io_b page_size))
    store (fill_memory (record { msr = msr; io_a = io_a; io_b = io_b }) pages)
    pure (record { msr = msr; io_a = io_a; io_b = io_b })

  -- `vmcs_step("creation")` at the machine of the failure.
  abbrev pub creation_failed : Machine → VmcsError → BringUpError
  creation_failed m = vmcs_step env.cpu m.vmcs "creation"

  abbrev pub or_creation_failed : (Machine → ℕ) → Step Machine (Unit {0})
  or_creation_failed rflags m =
      (outcome (λ e. creation_failed m (from_fail e)) (check_rflags (rflags m)), m)

  abbrev pub with_vmcs : ℕ → Machine → Machine
  with_vmcs page m = record m { vmcs = env.loaded_vmcs page }

  -- `VmcsRegion::create_current` with its `map_err`: VMCLEAR and VMPTRLD of a fresh region.
  unfoldable pub create_current : Step Machine VmxRegion
  create_current = do
    before ← get
    page ← allocate_zeroed_pages env vmcs_region 1 (creation_failed before Vmcs.allocation_failed)
    update tt (with_revision page)
    or_creation_failed (λ m. env.vmclear page m.vmcs)
    or_creation_failed (λ m. env.vmptrld page m.vmcs)
    update (record { phys_addr = page }) (with_vmcs page)
