-- ===== src/Base/Bits/Step.antt =====
-- `&` and `|` one binary digit at a time, and from it the law for two fields, for any operation on
-- digits.
use Prim.Native.Nat.{bit_and-bitwise, bit_or-bitwise, digits, bit_and, bit_or}
use Prim.Native.Nat.{◌≤◌, ◌<◌, ◌^◌, ◌%◌, ◌/◌, ◌*◌, ◌+◌, suc, zero, ℕ, max, min}
use native.Mathlib.Omega.{arith}
use native.Mathlib.Nat.{pow-suc}
use mathlib.Core.Path.{◌≡◌, refl, ap}

module _ (f : ℕ → ℕ → ℕ) (tail : ℕ → ℕ) where
  -- The digits do not depend on the fuel, once it covers the first operand.
  digits-enough :
      (fuel more x y : ℕ) → x ≤ fuel → x ≤ more → digits tail f fuel x y ≡ digits tail f more x y
  digits-enough zero zero x y few many = refl
  digits-enough (suc fuel) zero zero y few many = refl
  digits-enough (suc fuel) zero (suc x) y few many = absurd (omega arith)
  digits-enough zero (suc more) zero y few many = refl
  digits-enough zero (suc more) (suc x) y few many = absurd (omega arith)
  digits-enough (suc fuel) (suc more) zero y few many = refl
  digits-enough (suc fuel) (suc more) (suc x) y few many =
      let shorter : suc x / 2 ≤ fuel = omega arith in
      let fits : suc x / 2 ≤ more = omega arith in
      omega (arith, digits-enough fuel more (suc x / 2) (y / 2) shorter fits)

  digits-next :
      (x y : ℕ)
      → digits tail f (suc x) (suc x) y
        ≡ f (suc x % 2) (y % 2) + 2 * digits tail f (suc x / 2) (suc x / 2) (y / 2)
  digits-next x y =
      let half = suc x / 2 in
      let fits : half ≤ x = omega arith in
      omega (arith, digits-enough x half half (y / 2) fits (omega arith))

abbrev pub and_low : ℕ → ℕ → ℕ
and_low = min

abbrev pub or_low : ℕ → ℕ → ℕ
or_low = max

pub bit_and_step : (x y : ℕ) → bit_and x y ≡ and_low (x % 2) (y % 2) + 2 * bit_and (x / 2) (y / 2)
bit_and_step (suc x) y = simp bit_and-bitwise (digits-next min (λ t. 0) x y)
bit_and_step zero y = simp bit_and-bitwise (omega arith)

pub bit_or_step : (x y : ℕ) → bit_or x y ≡ or_low (x % 2) (y % 2) + 2 * bit_or (x / 2) (y / 2)
bit_or_step (suc x) y = simp bit_or-bitwise (digits-next max (λ t. t) x y)
bit_or_step zero y = simp bit_or-bitwise (omega arith)

doubled : (k high : ℕ) → 2 * (high * 2 ^ k) ≡ high * 2 ^ suc k
doubled k high = let e = pow-suc 2 k in omega (arith, ap (λ (p : ℕ). high * p) e)

module _ (op : ℕ → ℕ → ℕ) (low : ℕ → ℕ → ℕ) (none_left : op 0 0 ≡ 0)
    (step : (x y : ℕ) → op x y ≡ low (x % 2) (y % 2) + 2 * op (x / 2) (y / 2)) where
  half_field :
      (k high rest : ℕ)
      → ((high * 2 ^ suc k + rest) / 2 ≡ high * 2 ^ k + rest / 2)
        × ((high * 2 ^ suc k + rest) % 2 ≡ rest % 2)
  half_field k high rest = (omega (arith, doubled k high), omega (arith, doubled k high))

  pub op_fields :
      (k high rest high' rest' : ℕ)
      → rest < 2 ^ k
      → rest' < 2 ^ k
      → op (high * 2 ^ k + rest) (high' * 2 ^ k + rest') ≡ op high high' * 2 ^ k + op rest rest'
  op_fields zero high rest high' rest' h h' = ground (arith, none_left)
  op_fields (suc k) high rest high' rest' h h' =
      let (up, odd) = half_field k high rest in
      let (up', odd') = half_field k high' rest' in
      let power = pow-suc 2 k in
      let ih = op_fields k high (rest / 2) high' (rest' / 2) (omega arith) (omega arith) in
      rw (step (high * 2 ^ suc k + rest) (high' * 2 ^ suc k + rest'))
        (rw (up, up', odd, odd') (omega (arith, step rest rest', doubled k (op high high'), ih)))
