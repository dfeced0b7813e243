-- ===== src/ExitDecision/InterruptionInfo.antt =====
-- `InterruptionInfo` of src/vmx/exit_decision/mod.rs, as the raw u32: valid (bit 31), error code
-- (bit 11), type (bits 10:8), vector (bits 7:0).
use aleph0_virtualization_hy.Base.{
  ℕ, ◌*◌, ◌^◌, Bool, false, ◌&&◌, Option, none, some, bit_and, bit_or, ◌==◌, ◌!=◌, u8, shr,
  if◌then◌else◌,
}

abbrev pub nmi_vector : ℕ
nmi_vector = 2

abbrev pub valid : ℕ
valid = 2 ^ 31

abbrev pub type_nmi : ℕ
type_nmi = 2

abbrev pub type_hardware_exception : ℕ
type_hardware_exception = 3

abbrev pub deliver_error_code : ℕ
deliver_error_code = 2 ^ 11

abbrev pub gp_vector : ℕ
gp_vector = 13

abbrev pub nmi : ℕ
nmi = bit_or (bit_or valid (type_nmi * 2 ^ 8)) nmi_vector

abbrev pub general_protection : ℕ
general_protection =
    bit_or (bit_or (bit_or valid (type_hardware_exception * 2 ^ 8)) deliver_error_code) gp_vector

unfoldable pub is_valid : ℕ → Bool
is_valid info = bit_and info valid != 0

unfoldable pub vector : ℕ → Option ℕ
unfolding is_valid
vector info = if is_valid info then some (u8 info) else none

abbrev pub is_some_of : ℕ → Option ℕ → Bool
is_some_of v none = false
is_some_of v (some w) = w == v

unfoldable pub is_nmi : ℕ → Bool
unfolding is_valid vector
is_nmi info =
    is_valid info
    && ((bit_and (shr info 8) 0b111 == type_nmi) && is_some_of nmi_vector (vector info))
