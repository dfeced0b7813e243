-- ===== src/Paging.antt =====
-- `walk` of src/vmx/paging.rs: the translation of a virtual address by the tables at `cr3`, with
-- `read_entry` as the caller gives it.
use aleph0_virtualization_hy.Base.{
  ℕ, zero, suc, ◌+◌, ◌-◌, ◌*◌, ◌^◌, Bool, true, false, ◌&&◌, ◌||◌, Option, none, some, bit_and,
  bit_or, ◌==◌, ◌!=◌, not64, shr, u64, if◌then◌else◌, Result, ok, err,
}
pub mod Entry
pub mod Reading

abbrev pub present : ℕ
present = 2 ^ 0

abbrev pub writable_bit : ℕ
writable_bit = 2 ^ 1

abbrev pub user_bit : ℕ
user_bit = 2 ^ 2

abbrev pub page_size_bit : ℕ
page_size_bit = 2 ^ 7

abbrev pub execute_disable_bit : ℕ
execute_disable_bit = 2 ^ 63

abbrev pub frame_mask : ℕ
frame_mask = 0x000F_FFFF_FFFF_F000

pub data PageSize : Type 0 where
  size_4k size_2m size_1g : PageSize

pub record Mapping : Type 0 where
  pub physical : ℕ
  pub size : PageSize
  pub writable : Bool
  pub user : Bool
  pub execute_disable : Bool

pub data WalkError : Type 0 where
  five_level_paging : WalkError
  not_present : ℕ → WalkError

-- The `match level` of the loop.
unfoldable pub mapped_size : ℕ → ℕ → Option PageSize
mapped_size level entry =
    if (level == 3) && (bit_and entry page_size_bit != 0)
    then some size_1g
    else if (level == 2) && (bit_and entry page_size_bit != 0)
    then some size_2m
    else if level == 1
    then some size_4k
    else none

-- `frame | (virtual_address & offset_mask)`.
unfoldable pub physical_address : ℕ → ℕ → ℕ → ℕ
physical_address shift entry virtual_address =
    let offset_mask = 2 ^ shift - 1 in
    bit_or (bit_and (bit_and entry frame_mask) (not64 offset_mask))
      (bit_and virtual_address offset_mask)

-- What a turn of the loop gives the next one: the table and the permissions so far.
abbrev pub Walk : Type 0
Walk = ℕ → Bool → Bool → Bool → Option (Result Mapping WalkError)

-- One turn of the loop, once its entry is read; `next` is the turn of the level below.
unfoldable pub walk_entry :
    ℕ → ℕ → ℕ → ℕ → Bool → Bool → Bool → Walk → Option (Result Mapping WalkError)
unfolding mapped_size physical_address
walk_entry virtual_address level shift entry writable user execute_disable next =
    let writable' = writable && (bit_and entry writable_bit != 0) in
    let user' = user && (bit_and entry user_bit != 0) in
    let execute_disable' = execute_disable || (bit_and entry execute_disable_bit != 0) in
    if bit_and entry present == 0
    then some (err (not_present level))
    else elim (mapped_size level entry) [
      | some size ↦ some (
          ok (record {
            physical = physical_address shift entry virtual_address;
            size = size;
            writable = writable';
            user = user';
            execute_disable = execute_disable';
          }))
      | none ↦ next (bit_and entry frame_mask) writable' user' execute_disable'
    ]

module _ (read_entry : ℕ → ℕ) (virtual_address : ℕ) where
  -- The loop from `level` down; `none` is the `unreachable!` after it.
  unfoldable pub walk_from : ℕ → Walk
  unfolding walk_entry
  walk_from zero table writable user execute_disable = none
  walk_from (suc below) table writable user execute_disable =
      let shift = 12 + 9 * below in
      let index = bit_and (shr virtual_address shift) 0x1FF in
      walk_entry virtual_address (suc below) shift (read_entry (u64 (table + index * 8))) writable
        user execute_disable (walk_from below)

  unfoldable pub walk : ℕ → Option (Result Mapping WalkError)
  unfolding walk_from
  walk cr3 = walk_from 4 (bit_and cr3 frame_mask) true true false

-- `CR4_LA57` of src/vmx/cr.rs.
abbrev pub cr4_la57 : ℕ
cr4_la57 = 2 ^ 12

-- `walk_current`, with the registers and the memory that it reads.
unfoldable pub walk_current : (ℕ → ℕ) → ℕ → ℕ → ℕ → Option (Result Mapping WalkError)
unfolding walk
walk_current memory cr4 cr3 virtual_address =
    if bit_and cr4 cr4_la57 != 0
    then some (err five_level_paging)
    else walk memory virtual_address cr3
