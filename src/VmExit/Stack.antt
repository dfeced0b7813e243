-- ===== src/VmExit/Stack.antt =====
-- `VmExitStack` of src/vmx/vmexit/mod.rs, by the address of its pages.
use aleph0_virtualization_hy.Base.{ℕ, ◌+◌, ◌*◌, ◌%◌, Option, none, some, ◌!=◌, if◌then◌else◌}
use aleph0_virtualization_hy.Ept.Entry.{page_size}

abbrev pub vm_exit_stack_pages : ℕ
vm_exit_stack_pages = 4

abbrev pub vm_exit_stack_size : ℕ
vm_exit_stack_size = vm_exit_stack_pages * page_size

pub record VmExitStack : Type 0 where
  pub base : ℕ

-- `none` is the panic of the assertion.
unfoldable pub top : VmExitStack → Option ℕ
top stack = let end = stack.base + vm_exit_stack_size in if end % 16 != 0 then none else some end
