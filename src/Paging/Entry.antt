-- ===== src/Paging/Entry.antt =====
-- One turn of the loop of `walk` of src/vmx/paging.rs, at each level, in arithmetic.
use aleph0_virtualization_hy.Base.{
  ℕ, ◌+◌, ◌-◌, ◌*◌, ◌/◌, ◌%◌, ◌^◌, ◌≡◌, refl, ap₂, ◌∙◌, Bool, ◌&&◌, ◌||◌, some, arith, bit_and,
  bit_or, if◌then◌else◌, ok, err, Bool-cases, inl, inr,
}
use aleph0_virtualization_hy.Base.Bits.{bit_and_low, bit_and_mask, bit_or_add}
use aleph0_virtualization_hy.Ept.Capable.{has_bit, flag_set, flag_clear}
use aleph0_virtualization_hy.Paging.{
  PageSize, size_4k, size_2m, size_1g, Mapping, not_present, frame_mask, mapped_size,
  physical_address, Walk, walk_entry,
}

-- Bits 51:12 of an entry or of CR3.
abbrev pub table_of : ℕ → ℕ
table_of entry = entry / 2 ^ 12 % 2 ^ 40 * 2 ^ 12

pub table_of_lem : (entry : ℕ) → bit_and entry frame_mask ≡ table_of entry
table_of_lem entry = bit_and_mask 40 12 entry

module _ (va : ℕ) where
  -- The page of `2 ^ bits` bytes that an entry maps.
  abbrev pub page_of : ℕ → ℕ → ℕ
  page_of bits entry = entry / 2 ^ bits % 2 ^ (52 - bits) * 2 ^ bits + va % 2 ^ bits

  physical_4k : (e : ℕ) → physical_address 12 e va ≡ page_of 12 e
  unfolding physical_address
  physical_4k e =
      ap₂ bit_or (bit_and_mask 52 12 (bit_and e frame_mask)) (bit_and_low 12 va)
      ∙ bit_or_add 12 (bit_and e frame_mask / 2 ^ 12 % 2 ^ 52) (va % 2 ^ 12) (omega arith)
      ∙ omega (arith, table_of_lem e)

  physical_2m : (e : ℕ) → physical_address 21 e va ≡ page_of 21 e
  unfolding physical_address
  physical_2m e =
      ap₂ bit_or (bit_and_mask 43 21 (bit_and e frame_mask)) (bit_and_low 21 va)
      ∙ bit_or_add 21 (bit_and e frame_mask / 2 ^ 21 % 2 ^ 43) (va % 2 ^ 21) (omega arith)
      ∙ omega (arith, table_of_lem e)

  physical_1g : (e : ℕ) → physical_address 30 e va ≡ page_of 30 e
  unfolding physical_address
  physical_1g e =
      ap₂ bit_or (bit_and_mask 34 30 (bit_and e frame_mask)) (bit_and_low 30 va)
      ∙ bit_or_add 30 (bit_and e frame_mask / 2 ^ 30 % 2 ^ 34) (va % 2 ^ 30) (omega arith)
      ∙ omega (arith, table_of_lem e)

  abbrev pub mapping : PageSize → ℕ → ℕ → Bool → Bool → Bool → Mapping
  mapping size bits e w u x = record {
    physical = page_of bits e;
    size = size;
    writable = w && has_bit 1 e;
    user = u && has_bit 2 e;
    execute_disable = x || has_bit 63 e;
  }

  pub pt_entry :
      (e : ℕ) (w u x : Bool) (next : Walk)
      → walk_entry va 1 12 e w u x next ≡ (
          if has_bit 0 e
          then some (ok (mapping size_4k 12 e w u x))
          else some (err (not_present 1)))
  unfolding walk_entry mapped_size
  pt_entry e w u x next =
      rw (flag_set 0 e, flag_clear 1 e, flag_clear 2 e, flag_clear 63 e, physical_4k e)
        (elim (Bool-cases (has_bit 0 e)) [ inl here ↦ rw here refl | inr absent ↦ rw absent refl ])

  pub pd_entry :
      (e : ℕ) (w u x : Bool) (next : Walk)
      → walk_entry va 2 21 e w u x next ≡ (
          if has_bit 0 e
          then if has_bit 7 e
            then some (ok (mapping size_2m 21 e w u x))
            else next (table_of e) (w && has_bit 1 e) (u && has_bit 2 e) (x || has_bit 63 e)
          else some (err (not_present 2)))
  unfolding walk_entry mapped_size
  pd_entry e w u x next = elim (Bool-cases (has_bit 7 e)) [
    | inl large ↦
        rw
          (
            flag_set 0 e,
            flag_clear 7 e,
            large,
            flag_clear 1 e,
            flag_clear 2 e,
            flag_clear 63 e,
            physical_2m e,
          )
          (elim (Bool-cases (has_bit 0 e)) [
            | inl here ↦ rw here refl
            | inr absent ↦ rw absent refl
          ])
    | inr small ↦
        rw
          (
            flag_set 0 e,
            flag_clear 7 e,
            small,
            flag_clear 1 e,
            flag_clear 2 e,
            flag_clear 63 e,
            table_of_lem e,
          )
          (elim (Bool-cases (has_bit 0 e)) [
            | inl here ↦ rw here refl
            | inr absent ↦ rw absent refl
          ])
  ]

  pub pdpt_entry :
      (e : ℕ) (w u x : Bool) (next : Walk)
      → walk_entry va 3 30 e w u x next ≡ (
          if has_bit 0 e
          then if has_bit 7 e
            then some (ok (mapping size_1g 30 e w u x))
            else next (table_of e) (w && has_bit 1 e) (u && has_bit 2 e) (x || has_bit 63 e)
          else some (err (not_present 3)))
  unfolding walk_entry mapped_size
  pdpt_entry e w u x next = elim (Bool-cases (has_bit 7 e)) [
    | inl large ↦
        rw
          (
            flag_set 0 e,
            flag_clear 7 e,
            large,
            flag_clear 1 e,
            flag_clear 2 e,
            flag_clear 63 e,
            physical_1g e,
          )
          (elim (Bool-cases (has_bit 0 e)) [
            | inl here ↦ rw here refl
            | inr absent ↦ rw absent refl
          ])
    | inr small ↦
        rw
          (
            flag_set 0 e,
            flag_clear 7 e,
            small,
            flag_clear 1 e,
            flag_clear 2 e,
            flag_clear 63 e,
            table_of_lem e,
          )
          (elim (Bool-cases (has_bit 0 e)) [
            | inl here ↦ rw here refl
            | inr absent ↦ rw absent refl
          ])
  ]

  pub pml4_entry :
      (e : ℕ) (w u x : Bool) (next : Walk)
      → walk_entry va 4 39 e w u x next ≡ (
          if has_bit 0 e
          then next (table_of e) (w && has_bit 1 e) (u && has_bit 2 e) (x || has_bit 63 e)
          else some (err (not_present 4)))
  unfolding walk_entry mapped_size
  pml4_entry e w u x next =
      rw (flag_set 0 e, flag_clear 1 e, flag_clear 2 e, flag_clear 63 e, table_of_lem e)
        (elim (Bool-cases (has_bit 0 e)) [ inl here ↦ rw here refl | inr absent ↦ rw absent refl ])
