-- ===== src/Instruction.antt =====
-- src/vmx/instruction.rs: what a VMX instruction leaves in RFLAGS.
use aleph0_virtualization_hy.Base.{ℕ, ◌^◌, bit_and, ◌!=◌, if◌then◌else◌, Result, ok, err}

pub data VmxFail : Type 0 where
  invalid valid : VmxFail

abbrev pub rflags_cf : ℕ
rflags_cf = 2 ^ 0

abbrev pub rflags_zf : ℕ
rflags_zf = 2 ^ 6

unfoldable pub check_rflags : ℕ → Result (Unit {0}) VmxFail
check_rflags rflags =
    if bit_and rflags rflags_cf != 0
    then err invalid
    else if bit_and rflags rflags_zf != 0
    then err valid
    else ok tt
