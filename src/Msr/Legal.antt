-- ===== src/Msr/Legal.antt =====
-- Which control values a capability MSR allows, as the manual has it: bits 31:0 must be set, and only bits
-- 63:32 may be.
use aleph0_virtualization_hy.Base.{ℕ, ◌/◌, ◌%◌, ◌^◌, ◌≡◌, sym, ◌∙◌, bit_or, ok, err}
use aleph0_virtualization_hy.Base.Bits.Lattice.{Includes}
use aleph0_virtualization_hy.Msr.Controls.{
  UnsupportedControl, required, allowed, choose, choose_lem, choose_least,
}

-- A value with all that is required and wanted, and with nothing that is not allowed.
abbrev pub IsLegal : ℕ → ℕ → ℕ → Type 0
IsLegal capability wanted value =
    Includes value (capability % 2 ^ 32)
    × Includes (capability / 2 ^ 32 % 2 ^ 32) value
    × Includes value wanted

-- A legal value with no bit that is neither wanted nor required.
abbrev pub IsChosen : ℕ → ℕ → ℕ → Type 0
IsChosen capability wanted value =
    IsLegal capability wanted value × (value ≡ bit_or wanted (capability % 2 ^ 32))

pub choose-IsChosen :
    (capability wanted value : ℕ)
    → choose capability wanted ≡ ok value
    → IsChosen capability wanted value
unfolding required allowed
choose-IsChosen capability wanted value h =
    let (has, within, asked, least) = choose_lem capability wanted value h in
    ((has, within, asked), least)

-- The choice fails only if no value is legal.
pub choose_fails :
    (capability wanted value : ℕ) (e : UnsupportedControl)
    → choose capability wanted ≡ err e
    → IsLegal capability wanted value
    → ⊥
unfolding required allowed
choose_fails capability wanted value e h (has, within, asked) =
    let (chosen, found, least) = choose_least capability wanted value has within asked in
    let no : err e ≡ ok chosen = sym h ∙ found in absurd cc
