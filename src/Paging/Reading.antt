-- ===== src/Paging/Reading.antt =====
-- `walk` of src/vmx/paging.rs as the CPU's manual reads the tables: in arithmetic, level by level.
use aleph0_virtualization_hy.Base.{
  ℕ, ◌+◌, ◌*◌, ◌/◌, ◌%◌, ◌^◌, ◌<◌, ◌≡◌, refl, ap, ◌∙◌, Bool, true, false, ◌&&◌, ◌||◌, some, arith,
  bit_and, u64, shr, if◌then◌else◌, Result, ok, err, Bool-cases, inl, inr,
}
use aleph0_virtualization_hy.Base.Bits.{bit_and_low}
use aleph0_virtualization_hy.Ept.Capable.{has_bit}
use aleph0_virtualization_hy.Paging.{
  size_4k, size_2m, size_1g, Mapping, WalkError, not_present, walk_entry, walk_from, walk,
}
use aleph0_virtualization_hy.Paging.Entry.{
  table_of, table_of_lem, mapping, pt_entry, pd_entry, pdpt_entry, pml4_entry,
}

module _ (va : ℕ) where
  -- Each level: the entry, and the permissions of the levels above.
  abbrev pub read_pt : ℕ → Bool → Bool → Bool → Result Mapping WalkError
  read_pt e w u x = if has_bit 0 e then ok (mapping va size_4k 12 e w u x) else err (not_present 1)

  module _ (memory : ℕ → ℕ) where
    abbrev pub read_pd : ℕ → Bool → Bool → Bool → Result Mapping WalkError
    read_pd e w u x =
        if has_bit 0 e
        then if has_bit 7 e
          then ok (mapping va size_2m 21 e w u x)
          else read_pt (memory (table_of e + va / 2 ^ 12 % 512 * 8)) (w && has_bit 1 e)
              (u && has_bit 2 e) (x || has_bit 63 e)
        else err (not_present 2)

    abbrev pub read_pdpt : ℕ → Bool → Bool → Bool → Result Mapping WalkError
    read_pdpt e w u x =
        if has_bit 0 e
        then if has_bit 7 e
          then ok (mapping va size_1g 30 e w u x)
          else read_pd (memory (table_of e + va / 2 ^ 21 % 512 * 8)) (w && has_bit 1 e)
              (u && has_bit 2 e) (x || has_bit 63 e)
        else err (not_present 3)

    abbrev pub read_pml4 : ℕ → Bool → Bool → Bool → Result Mapping WalkError
    read_pml4 e w u x =
        if has_bit 0 e
        then read_pdpt (memory (table_of e + va / 2 ^ 30 % 512 * 8)) (w && has_bit 1 e)
            (u && has_bit 2 e) (x || has_bit 63 e)
        else err (not_present 4)

    pt_lem :
        (table : ℕ) (w u x : Bool)
        → table < 2 ^ 52
        → walk_from memory va 1 table w u x
          ≡ some (read_pt (memory (table + va / 2 ^ 12 % 512 * 8)) w u x)
    unfolding walk_from
    pt_lem table w u x h =
        let at : u64 (table + bit_and (shr va 12) 0x1FF * 8) ≡ table + va / 2 ^ 12 % 512 * 8 =
          omega (arith, bit_and_low 9 (va / 2 ^ 12)) in
        let e = memory (table + va / 2 ^ 12 % 512 * 8) in
        ap (λ i. walk_entry va 1 12 (memory i) w u x (walk_from memory va 0)) at
        ∙ pt_entry va e w u x (walk_from memory va 0)
        ∙ elim (Bool-cases (has_bit 0 e)) [ inl here ↦ rw here refl | inr absent ↦ rw absent refl ]

    pd_lem :
        (table : ℕ) (w u x : Bool)
        → table < 2 ^ 52
        → walk_from memory va 2 table w u x
          ≡ some (read_pd (memory (table + va / 2 ^ 21 % 512 * 8)) w u x)
    unfolding walk_from
    pd_lem table w u x h =
        let at : u64 (table + bit_and (shr va 21) 0x1FF * 8) ≡ table + va / 2 ^ 21 % 512 * 8 =
          omega (arith, bit_and_low 9 (va / 2 ^ 21)) in
        let e = memory (table + va / 2 ^ 21 % 512 * 8) in
        let below =
          pt_lem (table_of e) (w && has_bit 1 e) (u && has_bit 2 e) (x || has_bit 63 e)
            (omega arith) in
        ap (λ i. walk_entry va 2 21 (memory i) w u x (walk_from memory va 1)) at
        ∙ pd_entry va e w u x (walk_from memory va 1)
        ∙ elim (Bool-cases (has_bit 0 e)) [
          | inl here ↦ elim (Bool-cases (has_bit 7 e)) [
            | inl large ↦ rw (here, large) refl
            | inr small ↦ rw (here, small) below
          ]
          | inr absent ↦ rw absent refl
        ]

    pdpt_lem :
        (table : ℕ) (w u x : Bool)
        → table < 2 ^ 52
        → walk_from memory va 3 table w u x
          ≡ some (read_pdpt (memory (table + va / 2 ^ 30 % 512 * 8)) w u x)
    unfolding walk_from
    pdpt_lem table w u x h =
        let at : u64 (table + bit_and (shr va 30) 0x1FF * 8) ≡ table + va / 2 ^ 30 % 512 * 8 =
          omega (arith, bit_and_low 9 (va / 2 ^ 30)) in
        let e = memory (table + va / 2 ^ 30 % 512 * 8) in
        let below =
          pd_lem (table_of e) (w && has_bit 1 e) (u && has_bit 2 e) (x || has_bit 63 e)
            (omega arith) in
        ap (λ i. walk_entry va 3 30 (memory i) w u x (walk_from memory va 2)) at
        ∙ pdpt_entry va e w u x (walk_from memory va 2)
        ∙ elim (Bool-cases (has_bit 0 e)) [
          | inl here ↦ elim (Bool-cases (has_bit 7 e)) [
            | inl large ↦ rw (here, large) refl
            | inr small ↦ rw (here, small) below
          ]
          | inr absent ↦ rw absent refl
        ]

    pml4_lem :
        (table : ℕ) (w u x : Bool)
        → table < 2 ^ 52
        → walk_from memory va 4 table w u x
          ≡ some (read_pml4 (memory (table + va / 2 ^ 39 % 512 * 8)) w u x)
    unfolding walk_from
    pml4_lem table w u x h =
        let at : u64 (table + bit_and (shr va 39) 0x1FF * 8) ≡ table + va / 2 ^ 39 % 512 * 8 =
          omega (arith, bit_and_low 9 (va / 2 ^ 39)) in
        let e = memory (table + va / 2 ^ 39 % 512 * 8) in
        let below =
          pdpt_lem (table_of e) (w && has_bit 1 e) (u && has_bit 2 e) (x || has_bit 63 e)
            (omega arith) in
        ap (λ i. walk_entry va 4 39 (memory i) w u x (walk_from memory va 3)) at
        ∙ pml4_entry va e w u x (walk_from memory va 3)
        ∙ elim (Bool-cases (has_bit 0 e)) [ inl here ↦ rw here below | inr absent ↦ rw absent refl ]

    -- For every memory, CR3 and virtual address, `walk` returns, and gives what the CPU's tables say:
    -- the first entry that maps a page, with the address bits of that page size, writable and user
    -- if every level is, not executable if some level is not, or the level of the first entry that
    -- is not present.
    pub walk-read_pml4 :
        (cr3 : ℕ)
        → walk memory va cr3
          ≡ some (read_pml4 (memory (table_of cr3 + va / 2 ^ 39 % 512 * 8)) true true false)
    unfolding walk
    walk-read_pml4 cr3 =
        ap (λ t. walk_from memory va 4 t true true false) (table_of_lem cr3)
        ∙ pml4_lem (table_of cr3) true true false (omega arith)
