-- ===== src/ExitDecision/Registers.antt =====
-- What the register helpers of src/vmx/exit_decision/emulation.rs compute, in arithmetic.
use aleph0_virtualization_hy.Base.{
  ℕ, ◌+◌, ◌-◌, ◌*◌, ◌/◌, ◌%◌, ◌^◌, ◌<◌, ◌≡◌, refl, ap, ◌∙◌, ◌||◌, arith, bit_and, bit_or, leb, ltb,
  ◌==◌, if◌then◌else◌, not64, not32,
}
use aleph0_virtualization_hy.Base.Bits.{bit_and_low, bit_and_mask, bit_and_cut, bit_or_add}
use native.Mathlib.Nat.{mod-lt, one-le-pow}
use aleph0_virtualization_hy.ExitDecision.Types.{IoSize, byte, word, dword}
use aleph0_virtualization_hy.ExitDecision.Emulation.{
  CpuidResult, cpuid_policy, is_canonical_48, merge_in, out_value, mask,
}

-- A u64 passes the shift test of `is_canonical_48` exactly when its bits 63:47 are all 0 or all 1.
pub is_canonical_48_lem :
    (value : ℕ)
    → value < 2 ^ 64
    → is_canonical_48 value ≡ (ltb value (2 ^ 47) || leb (2 ^ 64 - 2 ^ 47) value)
unfolding is_canonical_48
is_canonical_48_lem value h = ground arith

abbrev pub bits : IoSize → ℕ
bits byte = 8
bits word = 16
bits dword = 32

low_mask : (size : IoSize) (x : ℕ) → bit_and x (mask size) ≡ x % 2 ^ bits size
low_mask byte x = bit_and_low 8 x
low_mask word x = bit_and_low 16 x
low_mask dword x = bit_and_low 32 x

-- The bytes above the `k` low bits, and new low bits.
replace_low :
    (k m n rax value : ℕ)
    → m ≡ (2 ^ n - 1) * 2 ^ k
    → rax / 2 ^ k % 2 ^ n ≡ rax / 2 ^ k
    → bit_or (bit_and rax m) (value % 2 ^ k) ≡ rax / 2 ^ k * 2 ^ k + value % 2 ^ k
replace_low k m n rax value em er =
    ap (λ (t : ℕ). bit_or t (value % 2 ^ k))
      (ap (bit_and rax) em ∙ bit_and_mask n k rax ∙ ap (λ (t : ℕ). t * 2 ^ k) er)
    ∙ bit_or_add k (rax / 2 ^ k) (value % 2 ^ k) (mod-lt value (one-le-pow k 2 (omega arith)))

abbrev pub kept : IoSize → ℕ → ℕ
kept byte rax = rax / 2 ^ 8 * 2 ^ 8
kept word rax = rax / 2 ^ 16 * 2 ^ 16
kept dword rax = 0

-- An IN of one or two bytes replaces the low bytes of RAX and keeps the others; an IN of four
-- bytes sets all of RAX.
merge_in_lem :
    (rax value : ℕ) (size : IoSize)
    → rax < 2 ^ 64
    → value < 2 ^ 32
    → merge_in rax size value ≡ kept size rax + value % 2 ^ bits size
unfolding merge_in
merge_in_lem rax value byte hr hv =
    ap (bit_or (bit_and rax (not64 (mask byte)))) (low_mask byte value)
    ∙ replace_low 8 (not64 (mask byte)) 56 rax value refl (omega arith)
merge_in_lem rax value word hr hv =
    ap (bit_or (bit_and rax (not64 (mask word)))) (low_mask word value)
    ∙ replace_low 16 (not64 (mask word)) 48 rax value refl (omega arith)
merge_in_lem rax value dword hr hv = omega arith

pub out_value_lem : (rax : ℕ) (size : IoSize) → out_value rax size ≡ rax % 2 ^ bits size
unfolding out_value
out_value_lem rax byte = omega (arith, low_mask byte rax)
out_value_lem rax word = omega (arith, low_mask word rax)
out_value_lem rax dword = omega (arith, low_mask dword rax)

-- An OUT of the size of an IN sends what the IN read.
out_value-merge_in :
    (rax value : ℕ) (size : IoSize)
    → rax < 2 ^ 64
    → value < 2 ^ bits size
    → out_value (merge_in rax size value) size ≡ value
out_value-merge_in rax value byte hr hv =
    omega (arith, merge_in_lem rax value byte, out_value_lem (merge_in rax byte value) byte)
out_value-merge_in rax value word hr hv =
    omega (arith, merge_in_lem rax value word, out_value_lem (merge_in rax word value) word)
out_value-merge_in rax value dword hr hv =
    omega (arith, merge_in_lem rax value dword, out_value_lem (merge_in rax dword value) dword)

vmx_mask : (ecx : ℕ) → ecx < 2 ^ 32 → bit_and ecx (not32 (2 ^ 5)) ≡ ecx - ecx / 2 ^ 5 % 2 * 2 ^ 5
vmx_mask ecx h =
    bit_and_cut 6 ecx (2 ^ 26 - 1) 31 (omega arith)
    ∙ omega (arith, bit_and_low 26 (ecx / 2 ^ 6), bit_and_low 5 (ecx % 2 ^ 6))

-- The guest sees the processor's CPUID, but for bit 5 (VMX) of ECX of leaf 1, which it sees clear.
cpuid_policy_lem :
    (leaf : ℕ) (raw : CpuidResult)
    → raw.ecx < 2 ^ 32
    → cpuid_policy leaf raw
      ≡ record raw { ecx = if leaf == 1 then raw.ecx - raw.ecx / 2 ^ 5 % 2 * 2 ^ 5 else raw.ecx }
unfolding cpuid_policy
cpuid_policy_lem leaf raw h = ground (arith, vmx_mask raw.ecx h)
