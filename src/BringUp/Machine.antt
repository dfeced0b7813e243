-- ===== src/BringUp/Machine.antt =====
-- What bring-up reads and changes, with src/output.rs's phase, and what it asks of the firmware, of the
-- VMX instructions and of the guest, which are parameters.
use aleph0_virtualization_hy.Base.{
  ℕ, ◌+◌, ◌*◌, ◌%◌, ◌^◌, ◌&&◌, Bool, Option, none, some, List, bit_and, bit_or, leb, ltb, ◌!=◌,
  if◌then◌else◌,
}
use aleph0_virtualization_hy.Ept.Entry.{page_size}
use aleph0_virtualization_hy.Ept.Publish.{Statics}
use aleph0_virtualization_hy.Ept.Tables.{Tables}
use aleph0_virtualization_hy.Segment.{DescriptorTable, Host, to_operand}
use aleph0_virtualization_hy.Vmcs.Access.{Vmcs, Cpu}
use aleph0_virtualization_hy.VmxOperation.{Processor}
use aleph0_virtualization_hy.BringUp.Error.{BringUpError}
use aleph0_virtualization_hy.BringUp.Step.{Step, outcome, fail, pure}
use aleph0_virtualization_hy.BringUp.Step

pub data Phase : Type 0 where
  boot_services runtime vm_exit : Phase

-- The CPU, its memory and the statics. `tables` are those of EPT, once they are built; `regions` is the memory of the VMXON region and the VMCS, as u32
-- cells; `in_vmx` is whether the CPU is in VMX operation.
pub record Machine : Type 0 where
  pub host : Host
  pub rflags : ℕ
  pub regions : ℕ → ℕ
  pub vmcs : Vmcs
  pub in_vmx : Bool
  pub statics : Statics
  pub tables : Option Tables
  pub phase : Phase

-- The allocations that bring-up makes, each once.
pub data Request : Type 0 where
  tss_page gdt_page exit_stack guest_code guest_stack guest_idt msr_page io_a_page io_b_page :
      Request
  ept_pages vmxon_region vmcs_region : Request

-- `page` is the firmware's answer to a request, and `call` what its call leaves of the CPU and memory;
-- `ept_page` answers the four requests of `Ept::build`, and `frees` is whether
-- `boot::free_pages` succeeds, which changes nothing else. `ltr_memory` is memory after LTR of a descriptor;
-- `loaded_vmcs` what the fields hold after VMPTRLD; `vmxon`, `vmxoff`, `vmclear` and `vmptrld` the RFLAGS that they leave. `run_guest`
-- is `vmx_launch`: the value that it returns, and the machine as the guest and the exit handler left it.
pub record Environment : Type 0 where
  pub page : Request → Option ℕ
  pub ept_page : ℕ → ℕ → Option ℕ
  pub call : Request → Host → Host
  pub frees : Bool
  pub memory_map : Option (List (ℕ × ℕ))
  pub cpuid_1_ecx : ℕ
  pub ltr_memory : (ℕ → ℕ) → ℕ → ℕ → ℕ
  pub cpu : Cpu
  pub vmxon : ℕ → Processor → ℕ
  pub vmxoff : Processor → ℕ
  pub vmclear : ℕ → Vmcs → ℕ
  pub vmptrld : ℕ → Vmcs → ℕ
  pub loaded_vmcs : ℕ → Vmcs
  pub guest_bytes : List ℕ
  pub nmi_handler_offset : ℕ
  pub entry_address : ℕ
  pub run_guest : Machine → ℕ × Machine

-- RFLAGS.IF.
abbrev pub rflags_if : ℕ
rflags_if = 2 ^ 9

unfoldable pub interrupts_enabled : Machine → Bool
interrupts_enabled m = bit_and m.rflags rflags_if != 0

-- STI.
unfoldable pub enable_interrupts : Machine → Machine
enable_interrupts m = record m { rflags = bit_or m.rflags rflags_if }

unfoldable pub load_gdtr : DescriptorTable → Host → Host
load_gdtr table host = record host { sgdt = to_operand table }

unfoldable pub load_idtr : DescriptorTable → Host → Host
load_idtr table host = record host { sidt = to_operand table }

-- `write_bytes(0, size)` at an address.
abbrev pub zeroed : (ℕ → ℕ) → ℕ → ℕ → ℕ → ℕ
zeroed memory base size at = if leb base at && ltb at (base + size) then 0 else memory at

-- What an allocation that fails returns; the assertion on the alignment panics.
abbrev pub aligned_or_panic : ℕ → ℕ → Step Machine ℕ
aligned_or_panic count page m = if page % page_size != 0 then (Step.panicked, m) else (
  Step.done page,
  record m { host = record m.host { memory = zeroed m.host.memory page (count * page_size) } },
)

abbrev pub given : Option ℕ → ℕ → BringUpError → Step Machine ℕ
given none count error = fail error
given (some page) count error = aligned_or_panic count page

-- `allocate_zeroed_pages_of_type(count, _, error)?`.
unfoldable pub allocate_zeroed_pages : Environment → Request → ℕ → BringUpError → Step Machine ℕ
allocate_zeroed_pages env request count error m =
    given (env.page request) count error (record m { host = env.call request m.host })

-- Bytes written to memory.
abbrev pub store : ((ℕ → ℕ) → ℕ → ℕ) → Step Machine (Unit {0})
store change m = (Step.done tt, record m { host = record m.host { memory = change m.host.memory } })
