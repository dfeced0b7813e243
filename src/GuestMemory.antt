-- ===== src/GuestMemory.antt =====
-- The guest's memory in src/vmx/guest.rs: the NMI gate, the layout of the pages, and the check that the
-- page tables map them as the guest needs. The assembled guest code is known by its length and by the
-- offset of its NMI handler.
pub mod Mapped
use aleph0_virtualization_hy.Base.{
  ℕ, ◌+◌, ◌-◌, ◌*◌, ◌%◌, ◌^◌, Bool, not, ◌&&◌, Option, none, some, List, [], ◌∷◌, ◌++◌, bit_and,
  ◌!=◌, u16, u32, u64, shr, to_le_bytes, if◌then◌else◌, Result, ok, err,
}
use aleph0_virtualization_hy.Ept.Entry.{page_size}
use aleph0_virtualization_hy.ExitDecision.InterruptionInfo.{nmi_vector}
use aleph0_virtualization_hy.Paging.{Mapping, WalkError}
use aleph0_virtualization_hy.Segment.{DescriptorTable}

-- `CR4_SMEP` and `CR4_SMAP` of src/vmx/cr.rs.
abbrev pub cr4_smep : ℕ
cr4_smep = 2 ^ 20

abbrev pub cr4_smap : ℕ
cr4_smap = 2 ^ 21

abbrev pub gate_size : ℕ
gate_size = 16

abbrev pub nmi_gate_offset : ℕ
nmi_gate_offset = nmi_vector * gate_size

abbrev pub guest_idt_limit : ℕ
guest_idt_limit = 3 * gate_size - 1

-- The 16 bytes, in order.
unfoldable pub interrupt_gate : ℕ → ℕ → List ℕ
interrupt_gate handler selector =
    to_le_bytes 2 (u16 handler)
    ++ (to_le_bytes 2 selector
        ++ ((0 ∷ 0x8E ∷ [])
            ++ (to_le_bytes 2 (u16 (shr handler 16))
                ++ (to_le_bytes 4 (u32 (shr handler 32)) ++ (0 ∷ 0 ∷ 0 ∷ 0 ∷ [])))))

pub data GuestMemoryError : Type 0 where
  code_too_large code_allocation_failed stack_allocation_failed idt_allocation_failed :
      GuestMemoryError
  code_not_mapped stack_not_mapped idt_not_mapped data_not_mapped : WalkError → GuestMemoryError
  code_not_executable code_blocked_by_smep stack_not_writable : GuestMemoryError
  stack_blocked_by_smap idt_blocked_by_smap data_not_writable data_blocked_by_smap :
      GuestMemoryError
  -- virtual address, physical
  not_identity_mapped : ℕ → ℕ → GuestMemoryError

abbrev pub Checked : Type 0
Checked = Result (Unit {0}) GuestMemoryError

infixl 5 ◌then◌
abbrev pub ◌then◌ : Checked → Checked → Checked
(ok done) then next = next
(err e) then next = err e

-- `if condition { return Err(error) }`.
abbrev pub refuse_if : Bool → GuestMemoryError → Checked
refuse_if condition error = if condition then err error else ok tt

unfoldable pub check_identity : ℕ → Mapping → Checked
check_identity virtual_address mapping =
    refuse_if (mapping.physical != virtual_address)
      (not_identity_mapped virtual_address mapping.physical)

unfoldable pub check_permissions : Mapping → Mapping → ℕ → Checked
check_permissions code stack cr4 =
    refuse_if code.execute_disable code_not_executable
    then refuse_if (code.user && (bit_and cr4 cr4_smep != 0)) code_blocked_by_smep
    then refuse_if (not stack.writable) stack_not_writable
    then refuse_if (stack.user && (bit_and cr4 cr4_smap != 0)) stack_blocked_by_smap

unfoldable pub check_idt_permissions : Mapping → ℕ → Checked
check_idt_permissions idt cr4 =
    refuse_if (idt.user && (bit_and cr4 cr4_smap != 0)) idt_blocked_by_smap

unfoldable pub check_data_permissions : Mapping → ℕ → Checked
check_data_permissions data_page cr4 =
    refuse_if (not data_page.writable) data_not_writable
    then refuse_if (data_page.user && (bit_and cr4 cr4_smap != 0)) data_blocked_by_smap

pub record GuestMappings : Type 0 where
  pub code : Mapping
  pub stack : Mapping
  pub idt : Mapping
  pub data_page : Mapping

-- The addresses of the pages; `code` has two, the second for data.
pub record GuestMemory : Type 0 where
  pub code : ℕ
  pub stack : ℕ
  pub idt : ℕ

abbrev pub nmi_handler : GuestMemory → ℕ → ℕ
nmi_handler memory nmi_handler_offset = memory.code + nmi_handler_offset

abbrev pub data_page : GuestMemory → ℕ
data_page memory = memory.code + page_size

-- `none` is the panic of the assertion.
unfoldable pub stack_top : GuestMemory → Option ℕ
stack_top memory = let top = memory.stack + page_size in if top % 16 != 0 then none else some top

abbrev pub idt : GuestMemory → DescriptorTable
idt memory = record { base = memory.idt; limit = guest_idt_limit }

-- A check that may panic, as a walk may.
abbrev pub Walked : Type 0 → Type 0
Walked A = Option (Result A GuestMemoryError)

infixl 5 ◌>>=◌
abbrev pub ◌>>=◌ : {A B : Type 0} → Walked A → (A → Walked B) → Walked B
none >>= f = none
some (ok a) >>= f = f a
some (err e) >>= f = some (err e)

-- `map_err`.
abbrev pub or_not_mapped :
    (WalkError → GuestMemoryError) → Option (Result Mapping WalkError) → Walked Mapping
or_not_mapped error none = none
or_not_mapped error (some (ok mapping)) = some (ok mapping)
or_not_mapped error (some (err e)) = some (err (error e))

-- What follows the four walks.
unfoldable pub check_all : ℕ → GuestMemory → GuestMappings → Checked
check_all cr4 memory maps =
    check_identity memory.code maps.code
    then check_identity memory.stack maps.stack
    then check_identity memory.idt maps.idt
    then check_identity (data_page memory) maps.data_page
    then check_permissions maps.code maps.stack cr4
    then check_idt_permissions maps.idt cr4
    then check_data_permissions maps.data_page cr4

module _ (walk : ℕ → Option (Result Mapping WalkError)) (cr4 : ℕ) where
  unfoldable pub check_mappings : GuestMemory → Walked GuestMappings
  check_mappings memory = do
    code ← or_not_mapped code_not_mapped (walk memory.code)
    stack ← or_not_mapped stack_not_mapped (walk memory.stack)
    idt_map ← or_not_mapped idt_not_mapped (walk memory.idt)
    data_map ← or_not_mapped data_not_mapped (walk (data_page memory))
    checked ← some (
        check_all cr4 memory
          (record { code = code; stack = stack; idt = idt_map; data_page = data_map }))
    some (ok (record { code = code; stack = stack; idt = idt_map; data_page = data_map }))
