-- ===== src/Ept/Walk.antt =====
-- How the CPU walks the tables that the head of src/vmx/ept.rs describes: the independent reading of
-- what Aleph0 builds. `memory` gives the u64 at a physical address.
use aleph0_virtualization_hy.Base.{
  ℕ, ◌+◌, ◌*◌, ◌/◌, ◌%◌, ◌^◌, ◌<◌, ◌≡◌, Option, none, some, bit_and, ◌==◌, length, get_or,
  if◌then◌else◌,
}
use aleph0_virtualization_hy.Ept.Tables.{Tables}

-- Bits 51:12.
abbrev pub address_of : ℕ → ℕ
address_of entry = entry / 2 ^ 12 % 2 ^ 40 * 2 ^ 12

-- Bits 2:0, execute, write and read.
abbrev pub access_of : ℕ → ℕ
access_of entry = entry % 8

-- The host-physical address that a guest-physical address stands for, and the accesses that every
-- level allows; `none` where an entry is not present.
abbrev pub at_pt : ℕ → ℕ → ℕ → Option (ℕ × ℕ)
at_pt gpa access e1 =
    if access_of e1 == 0
    then none
    else some (address_of e1 + gpa % 2 ^ 12, bit_and access (access_of e1))

module _ (memory : ℕ → ℕ) where
  abbrev pub at_pd : ℕ → ℕ → ℕ → Option (ℕ × ℕ)
  at_pd gpa access e2 =
      if access_of e2 == 0
      then none
      else if e2 / 2 ^ 7 % 2 == 1
      then some (e2 / 2 ^ 21 % 2 ^ 31 * 2 ^ 21 + gpa % 2 ^ 21, bit_and access (access_of e2))
      else at_pt gpa (bit_and access (access_of e2))
          (memory (address_of e2 + 8 * (gpa / 2 ^ 12 % 512)))

  abbrev pub at_pdpt : ℕ → ℕ → ℕ → Option (ℕ × ℕ)
  at_pdpt gpa access e3 =
      if access_of e3 == 0
      then none
      else at_pd gpa (bit_and access (access_of e3))
          (memory (address_of e3 + 8 * (gpa / 2 ^ 21 % 512)))

  abbrev pub at_pml4 : ℕ → ℕ → Option (ℕ × ℕ)
  at_pml4 gpa e4 =
      if access_of e4 == 0
      then none
      else at_pdpt gpa (access_of e4) (memory (address_of e4 + 8 * (gpa / 2 ^ 30 % 512)))

  unfoldable pub ept_translate : ℕ → ℕ → Option (ℕ × ℕ)
  ept_translate eptp gpa = at_pml4 gpa (memory (address_of eptp + 8 * (gpa / 2 ^ 39 % 512)))

-- The tables stand in memory, each at its address.
pub record Holds (memory : ℕ → ℕ) (pml4_address : ℕ) (t : Tables) : Type 0 where
  pub pml4 : (i : ℕ) → i < length t.pml4 → memory (pml4_address + 8 * i) ≡ get_or t.pml4 i 0
  pub pdpt : (i : ℕ) → i < length t.pdpt → memory (t.pdpt_address + 8 * i) ≡ get_or t.pdpt i 0
  pub pds : (i : ℕ) → i < length t.pds → memory (t.pds_address + 8 * i) ≡ get_or t.pds i 0
  pub pt : (i : ℕ) → i < length t.pt → memory (t.pt_address + 8 * i) ≡ get_or t.pt i 0
