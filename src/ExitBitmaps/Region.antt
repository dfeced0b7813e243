-- ===== src/ExitBitmaps/Region.antt =====
-- `ExitBitmaps` of src/vmx/exit_bitmaps.rs: the three pages by their addresses.
use aleph0_virtualization_hy.Base.{ℕ, List, [], ◌∷◌}
use aleph0_virtualization_hy.Vmcs.Access.{Cpu, Action, write_all}
use aleph0_virtualization_hy.Vmcs.Fields.Controls.{msr_bitmap, io_bitmap_a, io_bitmap_b}

pub record ExitBitmaps : Type 0 where
  pub msr : ℕ
  pub io_a : ℕ
  pub io_b : ℕ

abbrev pub bitmap_writes : ExitBitmaps → List (ℕ × ℕ)
bitmap_writes bitmaps =
    (msr_bitmap, bitmaps.msr) ∷ (io_bitmap_a, bitmaps.io_a) ∷ (io_bitmap_b, bitmaps.io_b) ∷ []

unfoldable pub write_to_vmcs : Cpu → ExitBitmaps → Action (Unit {0})
write_to_vmcs cpu bitmaps = write_all cpu (bitmap_writes bitmaps)
