-- ===== src/Ept/Identity.antt =====
-- What the CPU translates with the tables that `fill_identity_map` of src/vmx/ept.rs fills.
use aleph0_virtualization_hy.Base.{
  ℕ, ◌+◌, ◌*◌, ◌/◌, ◌%◌, ◌^◌, ◌<◌, ◌≡◌, refl, ap, ◌∙◌, true, false, Option, none, some, arith, ltb,
  ◌==◌, ==_iff, Bool-cases, inl, inr, bit_and, get_or, subst, if◌then◌else◌,
}
use aleph0_virtualization_hy.Ept.Entry.{eptp_new}
use aleph0_virtualization_hy.Ept.Fields.{eptp_new_lem}
use aleph0_virtualization_hy.Ept.Tables.{Tables, fill_identity_map}
use aleph0_virtualization_hy.Ept.Filled.{Fits, Filled, fill_identity_map-Filled}
use aleph0_virtualization_hy.Ept.Walk.{
  address_of, access_of, at_pt, at_pd, at_pdpt, at_pml4, ept_translate, Holds,
}

-- The accesses of a page: those of the protected one, else everything.
abbrev pub expected_access : ℕ → ℕ → ℕ → ℕ
expected_access protected access gpa = if gpa / 4096 == protected / 4096 then access else 7

-- An access that an entry holds, with the page present.
abbrev pub IsAccess : ℕ → Type 0
IsAccess access = (0 < access) × (access < 8) × (bit_and 7 access ≡ access)

translated_page :
    (gpa p access e1 : ℕ)
    → IsAccess access
    → gpa < 2 ^ 48
    → gpa / 2 ^ 21 ≡ p / 2 ^ 21
    → e1
      ≡ p / 2 ^ 21 * 2 ^ 21
        + gpa / 4096 % 512 * 4096
        + 48
        + (if gpa / 4096 % 512 == p / 4096 % 512 then access else 7)
    → at_pt gpa 7 e1 ≡ some (gpa, expected_access p access gpa)
translated_page gpa p access e1 (present, fits, kept) bound same he =
    elim (Bool-cases (gpa / 4096 == p / 4096)) [ inl one ↦ ground arith | inr other ↦ ground arith ]

translated_large :
    (memory : ℕ → ℕ) (gpa e2 : ℕ)
    → gpa < 2 ^ 48
    → e2 ≡ gpa / 2 ^ 21 * 2 ^ 21 + 0xB7
    → at_pd memory gpa 7 e2 ≡ some (gpa, 7)
translated_large memory gpa e2 bound he = ground arith

-- A PD entry that points at the PT.
translated_down :
    (memory : ℕ → ℕ) (gpa b e2 : ℕ) (r : Option (ℕ × ℕ))
    → b % 4096 ≡ 0
    → b < 2 ^ 52
    → e2 ≡ b + 7
    → at_pt gpa 7 (memory (b + 8 * (gpa / 2 ^ 12 % 512))) ≡ r
    → at_pd memory gpa 7 e2 ≡ r
translated_down memory gpa b e2 r aligned bound he hr =
    let a : address_of e2 ≡ b = omega arith in
    let c : access_of e2 ≡ 7 = omega arith in
    let small : e2 / 2 ^ 7 % 2 == 1 ≡ false = ground arith in rw (c, small, a) hr

-- The levels above hold tables only.
pdpt_down :
    (memory : ℕ → ℕ) (gpa b e3 : ℕ) (r : Option (ℕ × ℕ))
    → b % 4096 ≡ 0
    → b < 2 ^ 52
    → e3 ≡ b + 7
    → at_pd memory gpa 7 (memory (b + 8 * (gpa / 2 ^ 21 % 512))) ≡ r
    → at_pdpt memory gpa 7 e3 ≡ r
pdpt_down memory gpa b e3 r aligned bound he hr =
    let a : address_of e3 ≡ b = omega arith in
    let c : access_of e3 ≡ 7 = omega arith in rw (c, a) hr

pml4_down :
    (memory : ℕ → ℕ) (gpa b e4 : ℕ) (r : Option (ℕ × ℕ))
    → b % 4096 ≡ 0
    → b < 2 ^ 52
    → e4 ≡ b + 7
    → at_pdpt memory gpa 7 (memory (b + 8 * (gpa / 2 ^ 30 % 512))) ≡ r
    → at_pml4 memory gpa e4 ≡ r
pml4_down memory gpa b e4 r aligned bound he hr =
    let a : address_of e4 ≡ b = omega arith in
    let c : access_of e4 ≡ 7 = omega arith in rw (c, a) hr

module _ (memory : ℕ → ℕ) (t t' : Tables) (gibs p access : ℕ) (is_access : IsAccess access)
    (fits : Fits t gibs p) (filled : Filled t gibs p access t') (a : ℕ)
    (holds : Holds memory a t') where
  -- The word that the walk reads from the PDs.
  pd_word :
      (gpa : ℕ)
      → gpa < gibs * 2 ^ 30
      → memory (t.pds_address + gpa / 2 ^ 30 * 4096 + 8 * (gpa / 2 ^ 21 % 512))
        ≡ (if gpa / 2 ^ 21 == p / 2 ^ 21 then t.pt_address + 7 else gpa / 2 ^ 21 * 2 ^ 21 + 0xB7)
  pd_word gpa inside =
      ap memory (omega (arith, filled.pds_address))
      ∙ holds.pds (gpa / 2 ^ 21) (omega (arith, filled.pds_length))
      ∙ filled.pds (gpa / 2 ^ 21) (omega arith)

  pt_word :
      (gpa : ℕ)
      → memory (t.pt_address + 8 * (gpa / 2 ^ 12 % 512))
        ≡ p / 2 ^ 21 * 2 ^ 21
          + gpa / 4096 % 512 * 4096
          + 48
          + (if gpa / 4096 % 512 == p / 4096 % 512 then access else 7)
  pt_word gpa =
      ap memory (omega (arith, filled.pt_address))
      ∙ holds.pt (gpa / 4096 % 512) (omega (arith, filled.pt_length))
      ∙ filled.pt (gpa / 4096 % 512) (omega arith)

  translated_pd :
      (gpa : ℕ)
      → gpa < gibs * 2 ^ 30
      → at_pd memory gpa 7 (memory (t.pds_address + gpa / 2 ^ 30 * 4096 + 8 * (gpa / 2 ^ 21 % 512)))
        ≡ some (gpa, expected_access p access gpa)
  translated_pd gpa inside =
      let small : gpa < 2 ^ 48 = omega (arith, fits.gibs_bound) in
      let word = pd_word gpa inside in
      elim (Bool-cases (gpa / 2 ^ 21 == p / 2 ^ 21)) [
        | inl one ↦
            let region = (==_iff (gpa / 2 ^ 21) (p / 2 ^ 21)).0 one in
            translated_down memory gpa t.pt_address _ _ fits.pt_aligned fits.pt_bound
              (word ∙ rw one) (translated_page gpa p access _ is_access small region (pt_word gpa))
        | inr other ↦
            let apart : gpa / 4096 == p / 4096 ≡ false = ground arith in
            translated_large memory gpa _ small (word ∙ rw other) ∙ rw apart
      ]

  pml4_word :
      (gpa : ℕ)
      → a % 4096 ≡ 0
      → a < 2 ^ 52
      → gpa < 2 ^ 48
      → memory (address_of (eptp_new a) + 8 * (gpa / 2 ^ 39 % 512))
        ≡ (if ltb gpa (2 ^ 39) then t.pdpt_address + 7 else 0)
  pml4_word gpa aligned bound small =
      let read : memory (address_of (eptp_new a) + 8 * (gpa / 2 ^ 39 % 512))
          ≡ get_or t'.pml4 (gpa / 2 ^ 39) 0 =
        ap memory (omega (arith, eptp_new_lem a))
        ∙ holds.pml4 (gpa / 2 ^ 39) (omega (arith, filled.pml4_length)) in
      elim (Bool-cases (ltb gpa (2 ^ 39))) [
        | inl low ↦
            let first : gpa / 2 ^ 39 ≡ 0 = ground arith in read ∙ rw (first, low) filled.pml4
        | inr high ↦ read ∙ filled.pml4_rest (gpa / 2 ^ 39) (ground arith) ∙ rw high
      ]

  pdpt_word :
      (gpa : ℕ)
      → memory (t.pdpt_address + 8 * (gpa / 2 ^ 30 % 512)) ≡ (
          if ltb (gpa / 2 ^ 30 % 512) gibs
          then t.pds_address + gpa / 2 ^ 30 % 512 * 4096 + 7
          else 0)
  pdpt_word gpa =
      let g = gpa / 2 ^ 30 % 512 in
      let read : memory (t.pdpt_address + 8 * g) ≡ get_or t'.pdpt g 0 =
        ap memory (omega (arith, filled.pdpt_address))
        ∙ holds.pdpt g (omega (arith, filled.pdpt_length)) in
      elim (Bool-cases (ltb g gibs)) [
        | inl inside ↦ read ∙ filled.pdpt g (ground arith) ∙ rw inside
        | inr outside ↦ read ∙ filled.pdpt_rest g (ground arith) ∙ rw outside
      ]

  pub translated :
      (gpa : ℕ)
      → a % 4096 ≡ 0
      → a < 2 ^ 52
      → gpa < 2 ^ 48
      → ept_translate memory (eptp_new a) gpa
        ≡ (if ltb gpa (gibs * 2 ^ 30) then some (gpa, expected_access p access gpa) else none)
  unfolding ept_translate
  translated gpa aligned bound small =
      let top = pml4_word gpa aligned bound small in
      let word = pdpt_word gpa in
      let few = fits.gibs_bound in
      elim (Bool-cases (ltb gpa (2 ^ 39))) [
        | inr high ↦
            let past : ltb gpa (gibs * 2 ^ 30) ≡ false = ground arith in rw (top, high, past) refl
        | inl low ↦
            let g : gpa / 2 ^ 30 % 512 ≡ gpa / 2 ^ 30 = ground arith in
            pml4_down memory gpa t.pdpt_address _ _ fits.pdpt_aligned fits.pdpt_bound (top ∙ rw low)
              (elim (Bool-cases (ltb gpa (gibs * 2 ^ 30))) [
                | inl inside ↦
                    let here : ltb (gpa / 2 ^ 30 % 512) gibs ≡ true = ground arith in
                    let b = t.pds_address + gpa / 2 ^ 30 * 4096 in
                    rw inside (
                      pdpt_down memory gpa b _ _ (omega (arith, fits.pds_aligned))
                        (ground (arith, fits.pds_bound)) (word ∙ rw (here, g) refl)
                        (translated_pd gpa (ground arith)))
                | inr outside ↦
                    let past : ltb (gpa / 2 ^ 30 % 512) gibs ≡ false = ground arith in
                    rw (word, past, outside) refl
              ])
      ]

-- Filling never leaves its slices: every index is in range, and what it returns is the PT index of
-- the protected page.
pub fill_identity_map_total :
    (t : Tables) (gibs p : ℕ)
    → Fits t gibs p
    → (t' : Tables) × (fill_identity_map t gibs p ≡ some (t', p / 4096 % 512))
fill_identity_map_total t gibs p fits =
    let (t', e, filled) = fill_identity_map-Filled t gibs p fits in (t', e)

-- With the filled tables in memory and the EPT pointer at the PML4, the CPU's walk maps every
-- guest-physical address below `gibs` GiB to itself, with every access except on the protected page,
-- which is read-only, and maps no other address.
pub identity_map-ept_translate :
    (t t' : Tables) (gibs p j a : ℕ) (memory : ℕ → ℕ) (gpa : ℕ)
    → Fits t gibs p
    → fill_identity_map t gibs p ≡ some (t', j)
    → Holds memory a t'
    → a % 4096 ≡ 0
    → a < 2 ^ 52
    → gpa < 2 ^ 48
    → ept_translate memory (eptp_new a) gpa
      ≡ (if ltb gpa (gibs * 2 ^ 30) then some (gpa, expected_access p 1 gpa) else none)
identity_map-ept_translate t t' gibs p j a memory gpa fits e holds aligned bound small =
    let (built, eb, filled) = fill_identity_map-Filled t gibs p fits in
    let same : built ≡ t' = cc in
    translated memory t t' gibs p 1 (omega arith, omega arith, refl) fits
      (subst (λ x. Filled t gibs p 1 x) same filled) a holds gpa aligned bound small
