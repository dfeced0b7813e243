-- ===== src/Ept/Support.antt =====
-- `EptError` and `check_support` of src/vmx/ept.rs: which CPUs can run the EPT that Aleph0 builds.
use aleph0_virtualization_hy.Base.{ℕ, ◌^◌, not, bit_and, ◌==◌, ◌!=◌, if◌then◌else◌, Result, ok, err}
use aleph0_virtualization_hy.Msr.Controls.{allows}

pub data InveptType : Type 0 where
  single_context all_context : InveptType

pub data EptError : Type 0 where
  ept_unsupported page_walk_length_4_unsupported write_back_unsupported : EptError
  large_pages_unsupported invept_unsupported memory_map_unavailable empty_memory_map : EptError
  range_too_large : ℕ → EptError
  protected_page_outside_map allocation_failed already_built : EptError

-- src/vmx/vmcs/fields.rs.
abbrev pub secondary_enable_ept : ℕ
secondary_enable_ept = 2 ^ 1

abbrev pub cap_walk_length_4 : ℕ
cap_walk_length_4 = 2 ^ 6

abbrev pub cap_write_back : ℕ
cap_write_back = 2 ^ 14

abbrev pub cap_2m_pages : ℕ
cap_2m_pages = 2 ^ 16

abbrev pub cap_invept : ℕ
cap_invept = 2 ^ 20

abbrev pub cap_invept_single_context : ℕ
cap_invept_single_context = 2 ^ 25

abbrev pub cap_invept_all_context : ℕ
cap_invept_all_context = 2 ^ 26

unfoldable pub check_support : ℕ → ℕ → Result InveptType EptError
check_support secondary ept_vpid_cap =
    if not (allows secondary secondary_enable_ept)
    then err ept_unsupported
    else if bit_and ept_vpid_cap cap_walk_length_4 == 0
    then err page_walk_length_4_unsupported
    else if bit_and ept_vpid_cap cap_write_back == 0
    then err write_back_unsupported
    else if bit_and ept_vpid_cap cap_2m_pages == 0
    then err large_pages_unsupported
    else if bit_and ept_vpid_cap cap_invept == 0
    then err invept_unsupported
    else if bit_and ept_vpid_cap cap_invept_single_context != 0
    then ok single_context
    else if bit_and ept_vpid_cap cap_invept_all_context != 0
    then ok all_context
    else err invept_unsupported
