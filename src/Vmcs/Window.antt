-- ===== src/Vmcs/Window.antt =====
-- `with_nmi_window_exiting` and `set_nmi_window_exiting` of src/vmx/vmcs/mod.rs, in arithmetic.
use aleph0_virtualization_hy.Base.{
  ℕ, ◌+◌, ◌-◌, ◌*◌, ◌/◌, ◌%◌, ◌^◌, ◌<◌, ◌≡◌, ◌⊎◌, inl, inr, refl, ◌∙◌, Bool, true, false, arith,
  bit_or, if◌then◌else◌,
}
use aleph0_virtualization_hy.Base.Bits.{bit_or_cut, bit_and_cut, bit_and_low, bit_or-zero}
use aleph0_virtualization_hy.Vmcs.Access.{with_nmi_window_exiting}

low_bit : (b : ℕ) → b < 2 → bit_or b 1 ≡ 1
low_bit b h =
    let either : (b ≡ 0) ⊎ (b ≡ 1) = omega arith in
    elim either [ inl e ↦ rw e refl | inr e ↦ rw e refl ]

bit_or_one : (x : ℕ) → bit_or x 1 ≡ x / 2 * 2 + 1
bit_or_one x =
    bit_or_cut 1 x 0 1 (omega arith)
    ∙ omega (arith, bit_or-zero (x / 2), low_bit (x % 2) (omega arith))

-- Bit 22 is NMI-window exiting; every other bit of the primary controls stays.
pub with_nmi_window_exiting_lem :
    (primary : ℕ) (on : Bool)
    → primary < 2 ^ 64
    → with_nmi_window_exiting primary on
      ≡ primary / 2 ^ 23 * 2 ^ 23 + ((if on then 2 ^ 22 else 0) + primary % 2 ^ 22)
unfolding with_nmi_window_exiting
with_nmi_window_exiting_lem primary true h =
    bit_or_cut 22 primary 1 0 (omega arith)
    ∙ omega (arith, bit_or_one (primary / 2 ^ 22), bit_or-zero (primary % 2 ^ 22))
with_nmi_window_exiting_lem primary false h =
    bit_and_cut 23 primary (2 ^ 41 - 1) (2 ^ 22 - 1) (omega arith)
    ∙ omega (arith, bit_and_low 41 (primary / 2 ^ 23), bit_and_low 22 (primary % 2 ^ 23))

pub with_nmi_window_exiting-u32 :
    (primary : ℕ) (on : Bool) → primary < 2 ^ 32 → with_nmi_window_exiting primary on < 2 ^ 32
with_nmi_window_exiting-u32 primary true h =
    let e = with_nmi_window_exiting_lem primary true (omega arith) in omega (arith, e)
with_nmi_window_exiting-u32 primary false h =
    let e = with_nmi_window_exiting_lem primary false (omega arith) in omega (arith, e)
