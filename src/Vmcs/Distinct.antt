-- ===== src/Vmcs/Distinct.antt =====
-- A run of verified writes of src/vmx/vmcs/mod.rs that writes no field twice leaves every value.
use aleph0_virtualization_hy.Base.{
  ℕ, ◌≡◌, refl, ◌∙◌, Bool, true, false, not, ◌&&◌, List, [], ◌∷◌, arith, All,
}
use aleph0_virtualization_hy.Vmcs.Access.{Vmcs, write_field}
use aleph0_virtualization_hy.Vmcs.Writes.{written, is_listed, write_field_self, write_field_ne}

unfoldable pub is_distinct : List (ℕ × ℕ) → Bool
unfolding is_listed
is_distinct [] = true
is_distinct ((f, v) ∷ ws) = not (is_listed f ws) && is_distinct ws

-- Every pair of the list is in the VMCS.
abbrev pub Holds : Vmcs → List (ℕ × ℕ) → Type 0
Holds s = All (λ w. s w.0 ≡ w.1)

written_unlisted :
    (ws : List (ℕ × ℕ)) (s : Vmcs) (g : ℕ) → is_listed g ws ≡ false → written s ws g ≡ s g
unfolding written is_listed
written_unlisted [] s g h = refl
written_unlisted ((f, v) ∷ ws) s g h =
    written_unlisted ws (write_field s f v) g (ground arith) ∙ write_field_ne s f v g (ground arith)

pub written-Holds : (ws : List (ℕ × ℕ)) (s : Vmcs) → is_distinct ws ≡ true → Holds (written s ws) ws
unfolding written is_distinct
written-Holds [] s h = tt
written-Holds ((f, v) ∷ ws) s h = (
  written_unlisted ws (write_field s f v) f (ground arith) ∙ write_field_self s f v,
  written-Holds ws (write_field s f v) (ground arith),
)
