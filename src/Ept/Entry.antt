-- ===== src/Ept/Entry.antt =====
-- The entries and levels of the EPT tables, and the EPT pointer, of src/vmx/ept.rs. An entry is its
-- raw u64.
use aleph0_virtualization_hy.Base.{ℕ, ◌*◌, ◌^◌, bit_and, bit_or, not64, shr}

abbrev pub ept_read : ℕ
ept_read = 2 ^ 0

abbrev pub ept_write : ℕ
ept_write = 2 ^ 1

abbrev pub ept_execute : ℕ
ept_execute = 2 ^ 2

abbrev pub ept_rwx : ℕ
ept_rwx = bit_or (bit_or ept_read ept_write) ept_execute

abbrev pub memory_type_wb : ℕ
memory_type_wb = 6

abbrev pub memory_type_shift : ℕ
memory_type_shift = 3

abbrev pub large_page_bit : ℕ
large_page_bit = 2 ^ 7

abbrev pub address_mask : ℕ
address_mask = 0x000F_FFFF_FFFF_F000

abbrev pub eptp_walk_length_4 : ℕ
eptp_walk_length_4 = 3 * 2 ^ 3

abbrev pub entries : ℕ
entries = 512

abbrev pub page_size : ℕ
page_size = 4096

abbrev pub size_2m : ℕ
size_2m = 2 ^ 21

abbrev pub size_1g : ℕ
size_1g = 2 ^ 30

abbrev pub max_identity_map : ℕ
max_identity_map = entries * size_1g

pub data Level : Type 0 where
  pml4 pdpt pd pt : Level

abbrev pub shift : Level → ℕ
shift pml4 = 39
shift pdpt = 30
shift pd = 21
shift pt = 12

-- `Level::index`.
unfoldable pub index : Level → ℕ → ℕ
index level address = bit_and (shr address (shift level)) 0x1FF

unfoldable pub table : ℕ → ℕ
table address = bit_or (bit_and address address_mask) ept_rwx

unfoldable pub large_page : ℕ → ℕ
large_page address =
    bit_or
      (bit_or (bit_or (bit_and address address_mask) ept_rwx)
        (memory_type_wb * 2 ^ memory_type_shift))
      large_page_bit

unfoldable pub with_access : ℕ → ℕ → ℕ
with_access raw access = bit_or (bit_and raw (not64 ept_rwx)) (bit_and access ept_rwx)

unfoldable pub page : ℕ → ℕ → ℕ
unfolding with_access
page address access =
    with_access (bit_or (bit_and address address_mask) (memory_type_wb * 2 ^ memory_type_shift))
      access

-- `Eptp::new`.
unfoldable pub eptp_new : ℕ → ℕ
eptp_new pml4_address =
    bit_or (bit_or (bit_and pml4_address address_mask) memory_type_wb) eptp_walk_length_4
