-- ===== src/Ept/Fields.antt =====
-- The entries of src/vmx/ept.rs as sums of their fields.
use aleph0_virtualization_hy.Base.{
  ℕ, ◌+◌, ◌-◌, ◌*◌, ◌/◌, ◌%◌, ◌^◌, ◌<◌, ◌≡◌, ap, ap₂, ◌∙◌, arith, bit_and, bit_or, not64,
}
use aleph0_virtualization_hy.Base.Bits.{
  bit_and_low, bit_and_mask, bit_or_add, bit_or_fields, bit_or-zero,
}
use aleph0_virtualization_hy.Ept.Entry.{
  Level, shift, index, address_mask, table, large_page, page, with_access, eptp_new, size_2m,
}

pub index_lem :
    (level : Level) (address : ℕ) → index level address ≡ address / 2 ^ shift level % 512
unfolding index
index_lem level address = bit_and_low 9 (address / 2 ^ shift level)

-- The address bits of a word.
pub address_mask_lem : (a : ℕ) → bit_and a address_mask ≡ a / 2 ^ 12 % 2 ^ 40 * 2 ^ 12
address_mask_lem a = bit_and_mask 40 12 a

-- Flags below bit 12 go into an aligned address.
flags : (x f g : ℕ) → f < 2 ^ 12 → g < 2 ^ 12 → bit_or (x * 2 ^ 12 + f) g ≡ x * 2 ^ 12 + bit_or f g
flags x f g hf hg =
    ap (bit_or (x * 2 ^ 12 + f)) (omega arith)
    ∙ bit_or_fields 12 x f 0 g hf hg
    ∙ omega (arith, bit_or-zero x)

first_flags : (x g : ℕ) → g < 2 ^ 12 → bit_or (x * 2 ^ 12) g ≡ x * 2 ^ 12 + g
first_flags x g hg = bit_or_add 12 x g hg

pub table_lem : (a : ℕ) → table a ≡ a / 2 ^ 12 % 2 ^ 40 * 2 ^ 12 + 7
unfolding table
table_lem a =
    ap (λ (t : ℕ). bit_or t 7) (address_mask_lem a)
    ∙ first_flags (a / 2 ^ 12 % 2 ^ 40) 7 (omega arith)

pub large_page_lem : (a : ℕ) → large_page a ≡ a / 2 ^ 12 % 2 ^ 40 * 2 ^ 12 + 0xB7
unfolding large_page table
large_page_lem a =
    ap (λ (t : ℕ). bit_or (bit_or t 48) 128) (table_lem a)
    ∙ ap (λ (t : ℕ). bit_or t 128) (flags (a / 2 ^ 12 % 2 ^ 40) 7 48 (omega arith) (omega arith))
    ∙ flags (a / 2 ^ 12 % 2 ^ 40) 55 128 (omega arith) (omega arith)

pub with_access_lem :
    (raw access : ℕ) → raw < 2 ^ 64 → with_access raw access ≡ raw / 8 * 8 + access % 8
unfolding with_access
with_access_lem raw access h =
    ap₂ bit_or (bit_and_mask 61 3 raw) (bit_and_low 3 access)
    ∙ bit_or_add 3 (raw / 8 % 2 ^ 61) (access % 8) (omega arith)
    ∙ omega arith

pub page_lem : (a access : ℕ) → page a access ≡ a / 2 ^ 12 % 2 ^ 40 * 2 ^ 12 + 48 + access % 8
unfolding page
page_lem a access =
    let typed : bit_or (bit_and a address_mask) 48 ≡ a / 2 ^ 12 % 2 ^ 40 * 2 ^ 12 + 48 =
      ap (λ (t : ℕ). bit_or t 48) (address_mask_lem a)
      ∙ first_flags (a / 2 ^ 12 % 2 ^ 40) 48 (omega arith) in
    ap (λ (t : ℕ). with_access t access) typed
    ∙ with_access_lem (a / 2 ^ 12 % 2 ^ 40 * 2 ^ 12 + 48) access (omega arith)
    ∙ omega arith

pub eptp_new_lem : (a : ℕ) → eptp_new a ≡ a / 2 ^ 12 % 2 ^ 40 * 2 ^ 12 + 0x1E
unfolding eptp_new
eptp_new_lem a =
    ap (λ (t : ℕ). bit_or (bit_or t 6) 24) (address_mask_lem a)
    ∙ ap (λ (t : ℕ). bit_or t 24) (first_flags (a / 2 ^ 12 % 2 ^ 40) 6 (omega arith))
    ∙ flags (a / 2 ^ 12 % 2 ^ 40) 6 24 (omega arith) (omega arith)

-- The start of the 2 MiB region of an address.
pub region_lem : (a : ℕ) → a < 2 ^ 64 → bit_and a (not64 (size_2m - 1)) ≡ a / 2 ^ 21 * 2 ^ 21
region_lem a h = bit_and_mask 43 21 a ∙ omega arith
