-- ===== src/Examples/Bitmaps.antt =====
-- The bitmaps of src/vmx/exit_bitmaps.rs, filled in fresh pages.
use aleph0_virtualization_hy.Base.{
  ℕ, ◌≡◌, arith, List, some, not, ◌||◌, replicate, length-replicate, get_or-replicate,
}
use aleph0_virtualization_hy.Guest.{guest_scratch_port}
use aleph0_virtualization_hy.Msr.{ia32_efer}
use aleph0_virtualization_hy.ExitBitmaps.{
  MsrAccess, intercepted_msrs, intercepted_ports, contains, Pages, fill,
}
use aleph0_virtualization_hy.ExitBitmaps.Exact.{
  msr_exits, port_exits, IsZeroed, in_bitmap_range, fill_exact,
}

abbrev fresh_page : List ℕ
fresh_page = replicate 4096 0

fresh_page-IsZeroed : IsZeroed fresh_page
fresh_page-IsZeroed = (length-replicate {A = ℕ} 4096 0, λ i. get_or-replicate {A = ℕ} 4096 i 0)

fill_exact_example :
    (p : Pages) × (fill fresh_page fresh_page fresh_page ≡ some p)
    × (msr_exits p.msr MsrAccess.write ia32_efer
        ≡ (not (in_bitmap_range ia32_efer) || contains intercepted_msrs ia32_efer))
    × (port_exits p guest_scratch_port ≡ contains intercepted_ports guest_scratch_port)
fill_exact_example =
    fill_exact fresh_page fresh_page fresh_page MsrAccess.write ia32_efer guest_scratch_port
      fresh_page-IsZeroed fresh_page-IsZeroed fresh_page-IsZeroed (omega arith)

-- The pages that `fill` returns.
abbrev filled_pages : Pages
filled_pages =
    (fill_exact fresh_page fresh_page fresh_page MsrAccess.read 0xC000_0102 0 fresh_page-IsZeroed
      fresh_page-IsZeroed fresh_page-IsZeroed (omega arith)).0
