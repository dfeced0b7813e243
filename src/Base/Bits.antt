-- ===== src/Base/Bits.antt =====
-- `&` and `|` as arithmetic: how they act on two fields at once, on a mask and on a flag.
mod Step
pub mod Lattice
use Step.{and_low, or_low, bit_and_step, bit_or_step, op_fields}
use Prim.Native.Nat.{ℕ, zero, suc, ◌+◌, ◌-◌, ◌*◌, ◌/◌, ◌%◌, ◌^◌, ◌≤◌, ◌<◌, bit_and, bit_or}
use mathlib.Core.Path.{◌≡◌, refl, sym, ap, ap₂, ◌∙◌}
use native.Mathlib.Nat.{pow-suc, one-le-pow, mod-lt, div-add-mod'}
use native.Mathlib.Omega.{arith}

-- Both operands cut at bit `k`: the two halves do not meet.
pub bit_and_fields :
    (k q r p s : ℕ)
    → r < 2 ^ k
    → s < 2 ^ k
    → bit_and (q * 2 ^ k + r) (p * 2 ^ k + s) ≡ bit_and q p * 2 ^ k + bit_and r s
bit_and_fields = op_fields bit_and and_low refl bit_and_step

pub bit_or_fields :
    (k q r p s : ℕ)
    → r < 2 ^ k
    → s < 2 ^ k
    → bit_or (q * 2 ^ k + r) (p * 2 ^ k + s) ≡ bit_or q p * 2 ^ k + bit_or r s
bit_or_fields = op_fields bit_or or_low refl bit_or_step

-- A word is its part from bit `k` up and its `k` low bits.
cut : (k a : ℕ) → a ≡ a / 2 ^ k * 2 ^ k + a % 2 ^ k
cut k a = sym (div-add-mod' a (2 ^ k))

low-lt : (k a : ℕ) → a % 2 ^ k < 2 ^ k
low-lt k a = mod-lt a (one-le-pow k 2 (omega arith))

pub bit_and_cut :
    (k a p s : ℕ)
    → s < 2 ^ k
    → bit_and a (p * 2 ^ k + s) ≡ bit_and (a / 2 ^ k) p * 2 ^ k + bit_and (a % 2 ^ k) s
bit_and_cut k a p s hs =
    ap (λ (t : ℕ). bit_and t (p * 2 ^ k + s)) (cut k a)
    ∙ bit_and_fields k (a / 2 ^ k) (a % 2 ^ k) p s (low-lt k a) hs

pub bit_or_cut :
    (k a p s : ℕ)
    → s < 2 ^ k
    → bit_or a (p * 2 ^ k + s) ≡ bit_or (a / 2 ^ k) p * 2 ^ k + bit_or (a % 2 ^ k) s
bit_or_cut k a p s hs =
    ap (λ (t : ℕ). bit_or t (p * 2 ^ k + s)) (cut k a)
    ∙ bit_or_fields k (a / 2 ^ k) (a % 2 ^ k) p s (low-lt k a) hs

zero_fuel : (n a : ℕ) → a ≤ n → (bit_and a 0 ≡ 0) × (bit_or a 0 ≡ a)
zero_fuel n zero h = (refl, refl)
zero_fuel zero (suc a) h = absurd (omega arith)
zero_fuel (suc n) (suc a) h =
    omega
      (arith, bit_and_step (suc a) 0, bit_or_step (suc a) 0, zero_fuel n (suc a / 2) (omega arith))

pub bit_and-zero : (a : ℕ) → bit_and a 0 ≡ 0
bit_and-zero a = (zero_fuel a a (omega arith)).0

pub bit_or-zero : (a : ℕ) → bit_or a 0 ≡ a
bit_or-zero a = (zero_fuel a a (omega arith)).1

zero-bit_or_fuel : (n b : ℕ) → b ≤ n → (bit_and 0 b ≡ 0) × (bit_or 0 b ≡ b)
zero-bit_or_fuel n zero h = (refl, refl)
zero-bit_or_fuel zero (suc a) h = absurd (omega arith)
zero-bit_or_fuel (suc n) (suc a) h = omega (
  arith,
  bit_and_step 0 (suc a),
  bit_or_step 0 (suc a),
  zero-bit_or_fuel n (suc a / 2) (omega arith),
)

pub zero-bit_and : (a : ℕ) → bit_and 0 a ≡ 0
zero-bit_and a = (zero-bit_or_fuel a a (omega arith)).0

pub zero-bit_or : (a : ℕ) → bit_or 0 a ≡ a
zero-bit_or a = (zero-bit_or_fuel a a (omega arith)).1

and_fuel : (n a b : ℕ) → a ≤ n → bit_and a b ≤ a
and_fuel n zero b h = omega (arith, zero-bit_and b)
and_fuel zero (suc a) b h = absurd (omega arith)
and_fuel (suc n) (suc a) b h =
    omega (arith, bit_and_step (suc a) b, and_fuel n (suc a / 2) (b / 2) (omega arith))

pub bit_and-le : (a b : ℕ) → bit_and a b ≤ a
bit_and-le a b = and_fuel a a b (omega arith)

full_mask : (k r : ℕ) → r < 2 ^ k → bit_and r (2 ^ k - 1) ≡ r
full_mask zero r h = omega (arith, bit_and-zero r)
full_mask (suc k) r h =
    let half : (2 ^ suc k - 1) / 2 ≡ 2 ^ k - 1 = omega (arith, pow-suc 2 k, one-le-pow k 2) in
    let odd : (2 ^ suc k - 1) % 2 ≡ 1 = omega (arith, pow-suc 2 k, one-le-pow k 2) in
    bit_and_step r (2 ^ suc k - 1)
    ∙ rw (half, odd) (omega (arith, full_mask k (r / 2) (omega (arith, pow-suc 2 k))))

-- The mask of the `k` low bits is the remainder by `2 ^ k`.
pub bit_and_low : (k a : ℕ) → bit_and a (2 ^ k - 1) ≡ a % 2 ^ k
bit_and_low k a =
    ap (bit_and a) (omega arith)
    ∙ bit_and_cut k a 0 (2 ^ k - 1) (omega (arith, one-le-pow k 2))
    ∙ omega (
      arith,
      ap (λ (t : ℕ). t * 2 ^ k) (bit_and-zero (a / 2 ^ k)),
      full_mask k (a % 2 ^ k) (low-lt k a),
    )

-- The mask of `n` bits from bit `k` up.
pub bit_and_mask : (n k a : ℕ) → bit_and a ((2 ^ n - 1) * 2 ^ k) ≡ a / 2 ^ k % 2 ^ n * 2 ^ k
bit_and_mask n k a =
    ap (bit_and a) (omega arith)
    ∙ bit_and_cut k a (2 ^ n - 1) 0 (one-le-pow k 2 (omega arith))
    ∙ omega (arith, ap (λ (t : ℕ). t * 2 ^ k) (bit_and_low n (a / 2 ^ k)), bit_and-zero (a % 2 ^ k))

-- One flag.
pub bit_and_flag : (k a : ℕ) → bit_and a (2 ^ k) ≡ a / 2 ^ k % 2 * 2 ^ k
bit_and_flag k a = ap (bit_and a) (omega arith) ∙ bit_and_mask 1 k a

-- Fields that do not overlap add up.
pub bit_or_add : (k q r : ℕ) → r < 2 ^ k → bit_or (q * 2 ^ k) r ≡ q * 2 ^ k + r
bit_or_add k q r hr =
    ap (λ (t : ℕ). bit_or t r) (omega arith)
    ∙ ap (bit_or (q * 2 ^ k + 0)) (omega arith)
    ∙ bit_or_fields k q 0 0 r (one-le-pow k 2 (omega arith)) hr
    ∙ omega (arith, ap (λ (t : ℕ). t * 2 ^ k) (bit_or-zero q), zero-bit_or r)

pub bit_or_add_high : (k q r : ℕ) → r < 2 ^ k → bit_or r (q * 2 ^ k) ≡ q * 2 ^ k + r
bit_or_add_high k q r hr =
    ap (λ (t : ℕ). bit_or t (q * 2 ^ k)) (omega arith)
    ∙ ap (bit_or (0 * 2 ^ k + r)) (omega arith)
    ∙ bit_or_fields k 0 r q 0 hr (one-le-pow k 2 (omega arith))
    ∙ ap₂ (λ (x : ℕ) (y : ℕ). x * 2 ^ k + y) (zero-bit_or q) (bit_or-zero r)
