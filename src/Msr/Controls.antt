-- ===== src/Msr/Controls.antt =====
-- `ControlCapability` of src/vmx/msr.rs: one raw capability MSR, and the control value chosen from
-- it.
use aleph0_virtualization_hy.Base.{
  ◌<◌, ◌^◌, ℕ, ◌≡◌, Bool, not, ◌||◌, arith, bit_and, bit_or, ◌==◌, u32, shr, if◌then◌else◌, Result,
  ok, err,
}
use aleph0_virtualization_hy.Base.Bits.{bit_and-le}
use aleph0_virtualization_hy.Base.Bits.Lattice.{
  Includes, Includes-trans, Includes-bit_or, bit_and-bit_or_left, bit_and-bit_or_right,
}

pub data UnsupportedControl : Type 0 where
  unsupported_control : UnsupportedControl

-- `ControlCapability` is the raw u64.
unfoldable pub required : ℕ → ℕ
required capability = u32 capability

unfoldable pub allowed : ℕ → ℕ
allowed capability = u32 (shr capability 32)

unfoldable pub allows : ℕ → ℕ → Bool
unfolding allowed
allows capability bits = bit_and (allowed capability) bits == bits

unfoldable pub choose : ℕ → ℕ → Result ℕ UnsupportedControl
unfolding allows required
choose capability desired =
    if not (allows capability (required capability)) || not (allows capability desired)
    then err unsupported_control
    else ok (bit_or desired (required capability))

-- A chosen value is one that the CPU allows and that was asked for: every required bit is set, every
-- set bit is allowed, every requested bit is set, and every set bit is requested or required.
pub choose_lem :
    (capability desired value : ℕ)
    → choose capability desired ≡ ok value
    → Includes value (required capability)
      × Includes (allowed capability) value
      × Includes value desired
      × (value ≡ bit_or desired (required capability))
unfolding choose
choose_lem capability desired value h =
    let is : value ≡ bit_or desired (required capability) = ground arith in
    (
      rw is (bit_and-bit_or_right desired (required capability)),
      rw is (
          Includes-bit_or (allowed capability) desired (required capability) (ground arith)
            (ground arith)),
      rw is (bit_and-bit_or_left desired (required capability)),
      is,
    )

-- If any value has the required and the requested bits and only allowed ones, then `choose` finds
-- one, and the least one.
pub choose_least :
    (capability desired value : ℕ)
    → Includes value (required capability)
    → Includes (allowed capability) value
    → Includes value desired
    → (chosen : ℕ) × (choose capability desired ≡ ok chosen) × Includes value chosen
unfolding choose
choose_least capability desired value hr ha hd =
    let fits = Includes-trans (allowed capability) value (required capability) ha hr in
    let grants = Includes-trans (allowed capability) value desired ha hd in
    (
      bit_or desired (required capability),
      ground arith,
      Includes-bit_or value desired (required capability) hd hr,
    )

-- A chosen value is a u32.
pub choose-u32 :
    (capability desired value : ℕ) → choose capability desired ≡ ok value → value < 2 ^ 32
unfolding allowed
choose-u32 capability desired value h =
    let is_allowed = (choose_lem capability desired value h).1 in
    omega (arith, is_allowed, bit_and-le (allowed capability) value)
