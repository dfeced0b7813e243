-- ===== src/Ept/Publish.antt =====
-- `ProtectedPage`, the statics that publish it, `Ept::build` and `grant_write` of src/vmx/ept.rs. The
-- atomics are one record of their values: one CPU writes them before the guest runs. The firmware's
-- memory map and page allocator and the INVEPT instruction are parameters.
use aleph0_virtualization_hy.Base.{
  ℕ, ◌+◌, ◌*◌, ◌/◌, ◌%◌, ◌||◌, Option, none, some, List, leb, ◌==◌, ◌!=◌, bit_or, replicate, u64,
  if◌then◌else◌, Result, ok, err,
}
use aleph0_virtualization_hy.Instruction.{VmxFail, check_rflags}
use aleph0_virtualization_hy.Ept.Entry.{
  ept_read, ept_write, page_size, size_1g, with_access, eptp_new,
}
use aleph0_virtualization_hy.Ept.Support.{
  InveptType, single_context, all_context, EptError, memory_map_unavailable,
  protected_page_outside_map, allocation_failed, already_built,
}
use aleph0_virtualization_hy.Ept.Range.{ok_or, identity_map_end}
use aleph0_virtualization_hy.Ept.Tables.{Tables, fill_identity_map}

pub record ProtectedPage : Type 0 where
  pub gpa : ℕ
  pub entry : ℕ
  pub eptp : ℕ
  pub invept : InveptType

pub record Statics : Type 0 where
  pub protected_gpa : ℕ
  pub protected_entry : ℕ
  pub published_eptp : ℕ
  pub invept_type : ℕ

abbrev pub initial_statics : Statics
initial_statics = record {
  protected_gpa = 0;
  protected_entry = 0;
  published_eptp = 0;
  invept_type = 0;
}

abbrev pub invept_value : InveptType → ℕ
invept_value single_context = 1
invept_value all_context = 2

unfoldable pub decode_invept : ℕ → Option InveptType
decode_invept value =
    if value == 1 then some single_context else if value == 2 then some all_context else none

-- The four stores of `publish`.
abbrev pub published : ProtectedPage → Statics
published page = record {
  protected_gpa = page.gpa;
  protected_entry = page.entry;
  published_eptp = page.eptp;
  invept_type = invept_value page.invept;
}

unfoldable pub publish : ProtectedPage → Statics → Result Statics EptError
unfolding decode_invept
publish page s = elim (decode_invept s.invept_type) [
  | some kind ↦ err already_built
  | none ↦ ok (published page)
]

unfoldable pub protected_page : Statics → Option ProtectedPage
unfolding decode_invept
protected_page s = elim (decode_invept s.invept_type) [
  | none ↦ none
  | some kind ↦ some (record {
    gpa = s.protected_gpa;
    entry = s.protected_entry;
    eptp = s.published_eptp;
    invept = kind;
  })
]

pub record Ept : Type 0 where
  pub eptp : ℕ
  pub end : ℕ
  pub table_pages : ℕ

-- Zeroed tables at the addresses that the firmware gave.
abbrev pub zeroed_tables : ℕ → ℕ → ℕ → ℕ → Tables
zeroed_tables gibs pdpt_address pds_address pt_address = record {
  pml4 = replicate 512 0;
  pdpt = replicate 512 0;
  pds = replicate (gibs * 512) 0;
  pt = replicate 512 0;
  pdpt_address = pdpt_address;
  pds_address = pds_address;
  pt_address = pt_address;
}

abbrev pub and_then {ℓ κ} :
    {A : Type ℓ} {B : Type κ}
    → Result A EptError
    → (A → Option (Result B EptError))
    → Option (Result B EptError)
and_then (ok a) k = k a
and_then (err e) k = some (err e)

abbrev pub allocated : Option ℕ → Result ℕ EptError
allocated none = err allocation_failed
allocated (some a) = ok a

-- The end of `Ept::build`, once its pages are there: fill, then publish.
unfoldable pub build_tables :
    ℕ → ℕ → InveptType → Statics → ℕ → ℕ → ℕ → ℕ → Option (Result (Ept × Tables × Statics) EptError)
unfolding publish fill_identity_map
build_tables end page invept s pml4 pdpt pds pt =
    let gibs = end / size_1g in
    elim (fill_identity_map (zeroed_tables gibs pdpt pds pt) gibs page) [
      | none ↦ none
      | some (t, protected) ↦
          let ept : Ept = record { eptp = eptp_new pml4; end = end; table_pages = gibs + 3 } in
          let it : ProtectedPage = record {
            gpa = page;
            entry = u64 (pt + protected * 8);
            eptp = eptp_new pml4;
            invept = invept;
          } in
          and_then (publish it s) λ s'. some (ok (ept, t, s'))
    ]

-- `Ept::build`. `allocate i pages` is the answer of the firmware to the i-th request.
unfoldable pub build :
    Option (List (ℕ × ℕ))
    → (ℕ → ℕ → Option ℕ)
    → ℕ
    → InveptType
    → Statics
    → Option (Result (Ept × Tables × Statics) EptError)
unfolding build_tables identity_map_end
build map allocate page invept s =
    and_then (ok_or map memory_map_unavailable identity_map_end) λ end.
      if leb end page || (page % page_size != 0)
      then some (err protected_page_outside_map)
      else and_then (allocated (allocate 0 1)) λ pml4. and_then (allocated (allocate 1 1)) λ pdpt.
        and_then (allocated (allocate 2 (end / size_1g))) λ pds.
          and_then (allocated (allocate 3 1)) λ pt. build_tables end page invept s pml4 pdpt pds pt

-- A store of one u64 in memory.
abbrev pub write_u64 : (ℕ → ℕ) → ℕ → ℕ → ℕ → ℕ
write_u64 memory address value at = if at == address then value else memory at

-- `invalidate` and `grant_write`. `invept kind eptp` is the RFLAGS that the instruction leaves.
unfoldable pub grant_write :
    (InveptType → ℕ → ℕ) → ProtectedPage → (ℕ → ℕ) → (ℕ → ℕ) × Result InveptType VmxFail
unfolding with_access check_rflags
grant_write invept page memory = (
  write_u64 memory page.entry (with_access (memory page.entry) (bit_or ept_read ept_write)),
  elim (check_rflags (invept page.invept page.eptp)) [ err e ↦ err e | ok done ↦ ok page.invept ],
)
