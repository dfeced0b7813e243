-- ===== src/Examples/Walking.antt =====
-- The worked example of src/vmx/paging.rs: the guest code page on Hyper-V.
use aleph0_virtualization_hy.Base.{
  ℕ, ◌+◌, ◌*◌, ◌/◌, ◌%◌, ◌^◌, ◌≡◌, some, true, false, ◌==◌, if◌then◌else◌,
}
use aleph0_virtualization_hy.Paging.{walk}
use aleph0_virtualization_hy.Paging.Entry.{table_of}
use aleph0_virtualization_hy.Paging.Reading.{read_pml4, walk-read_pml4}

abbrev hyper_v : ℕ → ℕ
hyper_v address =
    if address == 0x7F80_1000
    then 0x7F80_2023
    else if address == 0x7F80_2008
    then 0x7F80_3023
    else if address == 0x7F80_3FA8
    then 0x7F9A_0023
    else if address == 0x7F9A_08C8
    then 0x7EB1_9063
    else 0

walk-read_pml4_example :
    walk hyper_v 0x7EB1_9000 0x7F80_1000
    ≡ some (
        read_pml4 0x7EB1_9000 hyper_v
          (hyper_v (table_of 0x7F80_1000 + 0x7EB1_9000 / 2 ^ 39 % 512 * 8))
          true
          true
          false)
walk-read_pml4_example = walk-read_pml4 0x7EB1_9000 hyper_v 0x7F80_1000
