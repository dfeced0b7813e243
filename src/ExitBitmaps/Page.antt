-- ===== src/ExitBitmaps/Page.antt =====
-- One page of a bitmap: `slice[offset] |= 1 << bit` of `fill` in src/vmx/exit_bitmaps.rs.
use aleph0_virtualization_hy.Base.{
  ℕ, ◌^◌, ◌<◌, ◌≡◌, ap, ◌∙◌, ◌≢◌, inl, inr, ◌&&◌, some, List, arith, bit_or, ◌==◌, if◌then◌else◌,
  length, get_or, set, get_or-set_self, get_or-set_ne, Bool-cases, ==_iff,
}
use aleph0_virtualization_hy.Base.Bits.Lattice.{bit, bit-bit_or, bit-pow}
use aleph0_virtualization_hy.ExitBitmaps.{or_byte}

-- Bit `i` of byte `o` of a page.
unfoldable pub bit_at : List ℕ → ℕ → ℕ → ℕ
bit_at page o i = bit (get_or page o 0) i

-- The byte that `or_byte` writes.
abbrev pub or_bit : List ℕ → ℕ → ℕ → List ℕ
or_bit page o i = set page o (bit_or (get_or page o 0) (2 ^ i))

bit_at-or_bit_self :
    (page : List ℕ) (o i i' : ℕ)
    → o < length page
    → bit_at (or_bit page o i) o i' ≡ (if i == i' then 1 else bit_at page o i')
unfolding bit_at
bit_at-or_bit_self page o i i' h =
    ap (λ (t : ℕ). bit t i') (get_or-set_self page o _ 0 h)
    ∙ bit-bit_or i' (get_or page o 0) (2 ^ i)
    ∙ rw (bit-pow i i') (ground arith)

bit_at-or_bit_ne :
    (page : List ℕ) (o i o' i' : ℕ) → o ≢ o' → bit_at (or_bit page o i) o' i' ≡ bit_at page o' i'
unfolding bit_at
bit_at-or_bit_ne page o i o' i' ne = ap (λ (t : ℕ). bit t i') (get_or-set_ne page o o' _ 0 ne)

-- `or_byte` sets one bit and keeps every other one.
pub bit_at-or_bit :
    (page : List ℕ) (o i o' i' : ℕ)
    → o < length page
    → bit_at (or_bit page o i) o' i' ≡ (if (o == o') && (i == i') then 1 else bit_at page o' i')
bit_at-or_bit page o i o' i' h = elim (Bool-cases (o == o')) [
  | inl same ↦
      let e : o ≡ o' = (==_iff o o').0 same in rw same (rw (← e) (bit_at-or_bit_self page o i i' h))
  | inr other ↦ rw other (bit_at-or_bit_ne page o i o' i' (λ e. ground arith))
]

pub or_byte_fits :
    (page : List ℕ) (o i : ℕ) → o < length page → or_byte page o i ≡ some (or_bit page o i)
unfolding or_byte
or_byte_fits page o i h = ground arith
