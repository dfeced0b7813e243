-- ===== src/Base/Bits/Lattice.antt =====
-- The laws of `&` and `|` as meet and join, at every width: a set of bits is a word.
use Prim.Native.Nat.{ℕ, zero, suc, ◌+◌, ◌/◌, ◌^◌, ◌%◌, ◌≤◌, bit_and, bit_or, min, max}
use mathlib.Core.Path.{◌≡◌, refl, sym, ap, ◌∙◌}
use native.Mathlib.Nat.{pow-suc, pow-succ', div-div-eq-div-mul, zero-div}
use aleph0_virtualization_hy.Base.Tests.{◌==◌, if◌then◌else◌}
use native.Mathlib.Omega.{arith}
use aleph0_virtualization_hy.Base.Bits.Step.{bit_and_step, bit_or_step}

and_half : (a b : ℕ) → bit_and a b / 2 ≡ bit_and (a / 2) (b / 2)
and_half a b = omega (arith, bit_and_step a b)

and_bit : (a b : ℕ) → bit_and a b % 2 ≡ min (a % 2) (b % 2)
and_bit a b = omega (arith, bit_and_step a b)

or_half : (a b : ℕ) → bit_or a b / 2 ≡ bit_or (a / 2) (b / 2)
or_half a b = omega (arith, bit_or_step a b)

or_bit : (a b : ℕ) → bit_or a b % 2 ≡ max (a % 2) (b % 2)
or_bit a b = omega (arith, bit_or_step a b)

ruleset digits = (and_half, and_bit, or_half, or_bit)

by_halves : (x y : ℕ) → x / 2 ≡ y / 2 → x % 2 ≡ y % 2 → x ≡ y
by_halves x y h l = omega arith

-- Each law is by induction on a bound of the operands, which halving makes smaller.
and-or_fuel :
    (n a b c : ℕ) → a + b + c ≤ n → bit_and a (bit_or b c) ≡ bit_or (bit_and a b) (bit_and a c)
and-or_fuel zero zero zero zero h = refl
and-or_fuel zero a b c h = absurd (omega arith)
and-or_fuel (suc n) a b c h =
    by_halves _ _ (simp digits (and-or_fuel n (a / 2) (b / 2) (c / 2) (omega arith)))
      (simp digits (omega arith))

pub bit_and-bit_or : (a b c : ℕ) → bit_and a (bit_or b c) ≡ bit_or (bit_and a b) (bit_and a c)
bit_and-bit_or a b c = and-or_fuel (a + b + c) a b c (omega arith)

absorb_fuel : (n a b : ℕ) → a + b ≤ n → (bit_and (bit_or a b) a ≡ a) × (bit_and (bit_or a b) b ≡ b)
absorb_fuel zero zero zero h = (refl, refl)
absorb_fuel zero (suc a) b h = absurd (omega arith)
absorb_fuel zero zero (suc b) h = absurd (omega arith)
absorb_fuel (suc n) a b h =
    let ih = absorb_fuel n (a / 2) (b / 2) (omega arith) in
    (
      by_halves _ _ (simp digits ih.0) (simp digits (omega arith)),
      by_halves _ _ (simp digits ih.1) (simp digits (omega arith)),
    )

pub bit_and-bit_or_left : (a b : ℕ) → bit_and (bit_or a b) a ≡ a
bit_and-bit_or_left a b = (absorb_fuel (a + b) a b (omega arith)).0

pub bit_and-bit_or_right : (a b : ℕ) → bit_and (bit_or a b) b ≡ b
bit_and-bit_or_right a b = (absorb_fuel (a + b) a b (omega arith)).1

-- Bit `k` of a word, as a number.
abbrev pub bit : ℕ → ℕ → ℕ
bit a k = a / 2 ^ k % 2

bit-suc : (a k : ℕ) → bit a (suc k) ≡ bit (a / 2) k
bit-suc a k = ap (λ (t : ℕ). t % 2) (rw (pow-succ', ← div-div-eq-div-mul) refl)

pub bit-bit_or : (k a b : ℕ) → bit (bit_or a b) k ≡ max (bit a k) (bit b k)
bit-bit_or zero a b = omega (arith, bit_or_step a b)
bit-bit_or (suc k) a b =
    bit-suc (bit_or a b) k ∙ rw (or_half, bit-suc a k, bit-suc b k) (bit-bit_or k (a / 2) (b / 2))

pub bit-bit_and : (k a b : ℕ) → bit (bit_and a b) k ≡ min (bit a k) (bit b k)
bit-bit_and zero a b = omega (arith, bit_and_step a b)
bit-bit_and (suc k) a b =
    bit-suc (bit_and a b) k
    ∙ rw (and_half, bit-suc a k, bit-suc b k) (bit-bit_and k (a / 2) (b / 2))

half_pow : (k : ℕ) → 2 ^ suc k / 2 ≡ 2 ^ k
half_pow k = omega (arith, pow-suc 2 k)

pub bit-pow : (k j : ℕ) → bit (2 ^ k) j ≡ (if k == j then 1 else 0)
bit-pow zero zero = refl
bit-pow zero (suc j) = bit-suc 1 j ∙ ground (arith, zero-div (2 ^ j))
bit-pow (suc k) zero = ground (arith, pow-suc 2 k)
bit-pow (suc k) (suc j) = bit-suc (2 ^ suc k) j ∙ rw (half_pow k) (ground (arith, bit-pow k j))

and_assoc_fuel : (n a b c : ℕ) → a + b + c ≤ n → bit_and a (bit_and b c) ≡ bit_and (bit_and a b) c
and_assoc_fuel zero zero zero zero h = refl
and_assoc_fuel zero a b c h = absurd (omega arith)
and_assoc_fuel (suc n) a b c h =
    by_halves _ _ (simp digits (and_assoc_fuel n (a / 2) (b / 2) (c / 2) (omega arith)))
      (simp digits (omega arith))

pub bit_and_assoc : (a b c : ℕ) → bit_and a (bit_and b c) ≡ bit_and (bit_and a b) c
bit_and_assoc a b c = and_assoc_fuel (a + b + c) a b c (omega arith)

-- Every bit of `b` is a bit of `a`.
abbrev pub Includes : ℕ → ℕ → Type 0
Includes a b = bit_and a b ≡ b

self_fuel : (n a : ℕ) → a ≤ n → Includes a a
self_fuel zero zero h = refl
self_fuel zero (suc a) h = absurd (omega arith)
self_fuel (suc n) a h =
    by_halves _ _ (simp digits (self_fuel n (a / 2) (omega arith))) (simp digits (omega arith))

pub Includes-refl : (a : ℕ) → Includes a a
Includes-refl a = self_fuel a a (omega arith)

pub Includes-trans : (a b c : ℕ) → Includes a b → Includes b c → Includes a c
Includes-trans a b c hab hbc =
    ap (bit_and a) (sym hbc) ∙ bit_and_assoc a b c ∙ ap (λ (t : ℕ). bit_and t c) hab ∙ hbc

pub Includes-bit_or : (a b c : ℕ) → Includes a b → Includes a c → Includes a (bit_or b c)
Includes-bit_or a b c hb hc = bit_and-bit_or a b c ∙ rw (hb, hc) refl
