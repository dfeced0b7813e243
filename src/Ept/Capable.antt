-- ===== src/Ept/Capable.antt =====
-- Which CPUs `check_support` of src/vmx/ept.rs accepts.
use aleph0_virtualization_hy.Base.{
  ℕ, ◌/◌, ◌%◌, ◌^◌, ◌≡◌, refl, ◌∙◌, Bool, true, false, ◌&&◌, ◌||◌, arith, bit_and, ◌==◌, ◌!=◌,
  Bool-cases, inl, inr, if◌then◌else◌, Result, ok, err, Option, some, none,
}
use aleph0_virtualization_hy.Base.Bits.{bit_and_flag}
use native.Mathlib.Nat.{one-le-pow}
use aleph0_virtualization_hy.Msr.Controls.{allows}
use aleph0_virtualization_hy.Ept.Support.{
  InveptType, single_context, all_context, check_support, secondary_enable_ept,
}

-- Bit `k` of a capability register.
abbrev pub has_bit : ℕ → ℕ → Bool
has_bit k capability = capability / 2 ^ k % 2 == 1

abbrev pub accepted {ℓ κ} : {A : Type ℓ} {E : Type κ} → Result A E → Option A
accepted (ok a) = some a
accepted (err e) = none

-- `InveptType` that is used on a CPU.
abbrev pub preferred : ℕ → InveptType
preferred capability = if has_bit 25 capability then single_context else all_context

pub flag_set : (k c : ℕ) → (bit_and c (2 ^ k) == 0) ≡ (if has_bit k c then false else true)
flag_set k c =
    let flag = bit_and_flag k c in
    let positive = one-le-pow k 2 (omega arith) in
    elim (Bool-cases (has_bit k c)) [
      | inl on ↦
          let e : c / 2 ^ k % 2 ≡ 1 = ground arith in
          let whole : bit_and c (2 ^ k) ≡ 2 ^ k = flag ∙ rw e (omega arith) in
          rw (whole, e) (ground arith)
      | inr off ↦
          let e : c / 2 ^ k % 2 ≡ 0 = ground arith in
          let nothing : bit_and c (2 ^ k) ≡ 0 = flag ∙ rw e (omega arith) in rw (nothing, e) refl
    ]

pub flag_clear : (k c : ℕ) → (bit_and c (2 ^ k) != 0) ≡ has_bit k c
flag_clear k c = ground (arith, flag_set k c)

-- For every value of the two capability registers, EPT is used exactly when the secondary controls
-- allow it and the CPU has 4-level walks, write-back tables, 2 MiB pages and INVEPT of one of the two
-- types; the single-context type is taken where there is one.
pub check_support_lem :
    (secondary cap : ℕ)
    → accepted (check_support secondary cap) ≡ (
        if allows secondary secondary_enable_ept
          && has_bit 6 cap
          && has_bit 14 cap
          && has_bit 16 cap
          && has_bit 20 cap
          && (has_bit 25 cap || has_bit 26 cap)
        then some (preferred cap)
        else none)
unfolding check_support
check_support_lem secondary cap =
    rw
      (
        flag_set 6 cap,
        flag_set 14 cap,
        flag_set 16 cap,
        flag_set 20 cap,
        flag_clear 25 cap,
        flag_clear 26 cap,
      )
      (ground arith)
