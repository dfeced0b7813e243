-- ===== src/Ept/Filled.antt =====
-- The tables that `fill_identity_map` of src/vmx/ept.rs leaves, as one record of their entries.
use aleph0_virtualization_hy.Base.{
  ℕ, ◌+◌, ◌*◌, ◌/◌, ◌%◌, ◌^◌, ◌≤◌, ◌<◌, ◌≡◌, refl, ◌∙◌, ◌&&◌, some, List, arith, leb, ltb, ◌==◌,
  ==_iff, Bool-cases, inl, inr, u64, length, get_or, set, length-set, lt→ltb, get_or-set_self,
  get_or-set_ne, true, if◌then◌else◌,
}
use aleph0_virtualization_hy.Ept.Entry.{
  pdpt, pd, pt, index, page_size, size_2m, entries, table, large_page, page, ept_rwx, ept_read,
}
use aleph0_virtualization_hy.Ept.Fields.{index_lem, table_lem, large_page_lem, page_lem, region_lem}
use aleph0_virtualization_hy.Ept.Tables.{Tables, fill_each, fill_identity_map}
use aleph0_virtualization_hy.Ept.Fill.{
  length-fill_each, get_or-fill_each, get_or-set, fill_pdpt_lem,
}

-- What `Ept::build` has ready: pages of its own, all zero, and a page to protect inside the map.
pub record Fits (t : Tables) (gibs protected : ℕ) : Type 0 where
  pub pml4 : length t.pml4 ≡ 512
  pub pdpt : length t.pdpt ≡ 512
  pub pds : length t.pds ≡ gibs * 512
  pub pt : length t.pt ≡ 512
  pub pml4_zeroed : (i : ℕ) → get_or t.pml4 i 0 ≡ 0
  pub pdpt_zeroed : (i : ℕ) → get_or t.pdpt i 0 ≡ 0
  pub pdpt_aligned : t.pdpt_address % 4096 ≡ 0
  pub pdpt_bound : t.pdpt_address < 2 ^ 52
  pub pds_aligned : t.pds_address % 4096 ≡ 0
  pub pds_bound : t.pds_address + gibs * 4096 ≤ 2 ^ 52
  pub pt_aligned : t.pt_address % 4096 ≡ 0
  pub pt_bound : t.pt_address < 2 ^ 52
  pub gibs_bound : gibs ≤ 512
  pub inside : protected < gibs * 2 ^ 30
  pub aligned : protected % 4096 ≡ 0

-- The entries of the identity map, with the accesses that the protected page has.
pub record Filled (t : Tables) (gibs protected access : ℕ) (t' : Tables) : Type 0 where
  pub pml4 : get_or t'.pml4 0 0 ≡ t.pdpt_address + 7
  pub pml4_rest : (i : ℕ) → 0 < i → get_or t'.pml4 i 0 ≡ 0
  pub pdpt : (g : ℕ) → g < gibs → get_or t'.pdpt g 0 ≡ t.pds_address + g * 4096 + 7
  pub pdpt_rest : (g : ℕ) → gibs ≤ g → get_or t'.pdpt g 0 ≡ 0
  pub pds :
      (i : ℕ)
      → i < gibs * 512
      → get_or t'.pds i 0
        ≡ (if i == protected / 2 ^ 21 then t.pt_address + 7 else i * 2 ^ 21 + 0xB7)
  pub pt :
      (j : ℕ)
      → j < 512
      → get_or t'.pt j 0
        ≡ protected / 2 ^ 21 * 2 ^ 21
          + j * 4096
          + 48
          + (if j == protected / 4096 % 512 then access else 7)
  pub pml4_length : length t'.pml4 ≡ 512
  pub pdpt_length : length t'.pdpt ≡ 512
  pub pds_length : length t'.pds ≡ gibs * 512
  pub pt_length : length t'.pt ≡ 512
  pub pdpt_address : t'.pdpt_address ≡ t.pdpt_address
  pub pds_address : t'.pds_address ≡ t.pds_address
  pub pt_address : t'.pt_address ≡ t.pt_address

-- An aligned address goes into an entry whole.
address_whole : (a : ℕ) → a % 4096 ≡ 0 → a < 2 ^ 52 → a / 2 ^ 12 % 2 ^ 40 * 2 ^ 12 ≡ a
address_whole a ha hb = omega arith

split_lem : (p : ℕ) → p < 2 ^ 39 → index pdpt p * entries + index pd p ≡ p / 2 ^ 21
split_lem p h = rw (index_lem pdpt p, index_lem pd p) (omega arith)

pds_entry :
    (n p b i : ℕ) (xs : List ℕ)
    → length xs ≡ n
    → n ≤ 512 * 512
    → p / 2 ^ 21 < n
    → b % 4096 ≡ 0
    → b < 2 ^ 52
    → i < n
    → get_or (set (fill_each (λ i. large_page (u64 (i * size_2m))) 0 xs) (p / 2 ^ 21) (table b)) i 0
      ≡ (if i == p / 2 ^ 21 then b + 7 else i * 2 ^ 21 + 0xB7)
pds_entry n p b i xs len most hp aligned bound hi =
    let f : ℕ → ℕ = λ i. large_page (u64 (i * size_2m)) in
    let long = length-fill_each f 0 xs in
    let here = get_or-fill_each f 0 i xs (omega arith) in
    let large : f (0 + i) ≡ i * 2 ^ 21 + 0xB7 =
      large_page_lem (u64 ((0 + i) * size_2m)) ∙ omega arith in
    let down : table b ≡ b + 7 = table_lem b ∙ omega arith in
    let both = get_or-set (fill_each f 0 xs) (p / 2 ^ 21) i (table b) (omega arith) in
    rw (both, down, here, large) refl

pt_entry :
    (p j : ℕ) (xs : List ℕ)
    → length xs ≡ 512
    → p < 2 ^ 39
    → p % 4096 ≡ 0
    → j < 512
    → get_or
        (set
          (fill_each (λ i. page (u64 (p / 2 ^ 21 * 2 ^ 21 + i * page_size)) ept_rwx) 0 xs)
          (p / 4096 % 512)
          (page p ept_read))
        j
        0
      ≡ p / 2 ^ 21 * 2 ^ 21 + j * 4096 + 48 + (if j == p / 4096 % 512 then 1 else 7)
pt_entry p j xs len bound aligned hj =
    let f : ℕ → ℕ = λ i. page (u64 (p / 2 ^ 21 * 2 ^ 21 + i * page_size)) ept_rwx in
    let long = length-fill_each f 0 xs in
    let here = get_or-fill_each f 0 j xs (omega arith) in
    let open_page : f (0 + j) ≡ p / 2 ^ 21 * 2 ^ 21 + j * 4096 + 48 + 7 =
      page_lem (u64 (p / 2 ^ 21 * 2 ^ 21 + (0 + j) * page_size)) ept_rwx ∙ omega arith in
    let read_only : page p ept_read ≡ p + 48 + 1 = page_lem p ept_read ∙ omega arith in
    let both = get_or-set (fill_each f 0 xs) (p / 4096 % 512) j (page p ept_read) (omega arith) in
    rw (both, read_only, here, open_page)
      (elim (Bool-cases (j == p / 4096 % 512)) [
        | inl same ↦ let e = (==_iff j (p / 4096 % 512)).0 same in rw same (omega arith)
        | inr other ↦ rw other refl
      ])

pdpt_entry :
    (a gibs g x y : ℕ)
    → a % 4096 ≡ 0
    → a + gibs * 4096 ≤ 2 ^ 52
    → x ≡ 0
    → y ≡ (if leb 0 g && ltb g (0 + gibs) then table (u64 (a + u64 (g * page_size))) else x)
    → y ≡ (if ltb g gibs then a + g * 4096 + 7 else 0)
pdpt_entry a gibs g x y aligned bound hx hy =
    let raw = table_lem (u64 (a + u64 (g * page_size))) in ground arith

pub fill_identity_map-Filled :
    (t : Tables) (gibs p : ℕ)
    → Fits t gibs p
    → (t' : Tables) × (fill_identity_map t gibs p ≡ some (t', p / 4096 % 512))
      × Filled t gibs p 1 t'
unfolding fill_identity_map
fill_identity_map-Filled t gibs p fits =
    let (ys, filled, long, entry) =
      fill_pdpt_lem t.pds_address gibs 0 t.pdpt (omega (arith, fits.pdpt, fits.gibs_bound)) in
    let small : p < 2 ^ 39 = omega (arith, fits.inside, fits.gibs_bound) in
    let split = split_lem p small in
    let region = region_lem p (omega (arith, small)) in
    let protected = index_lem pt p in
    let large : ℕ → ℕ = λ i. large_page (u64 (i * size_2m)) in
    let open_page : ℕ → ℕ = λ i. page (u64 (p / 2 ^ 21 * 2 ^ 21 + i * page_size)) ept_rwx in
    let pds_long = length-fill_each large 0 t.pds in
    let pt_long = length-fill_each open_page 0 t.pt in
    let has_pml4 : ltb 0 (length t.pml4) ≡ true = lt→ltb _ _ (omega (arith, fits.pml4)) in
    let has_pds : ltb (p / 2 ^ 21) (length (fill_each large 0 t.pds)) ≡ true =
      lt→ltb _ _ (omega (arith, fits.pds, pds_long, fits.inside)) in
    let has_pt : ltb (p / 4096 % 512) (length (fill_each open_page 0 t.pt)) ≡ true =
      lt→ltb _ _ (omega (arith, fits.pt, pt_long)) in
    (
      record {
        pml4 = set t.pml4 0 (table t.pdpt_address);
        pdpt = ys;
        pds = set (fill_each large 0 t.pds) (p / 2 ^ 21) (table t.pt_address);
        pt = set (fill_each open_page 0 t.pt) (p / 4096 % 512) (page p ept_read);
        pdpt_address = t.pdpt_address;
        pds_address = t.pds_address;
        pt_address = t.pt_address;
      },
      rw (has_pml4, filled, split, has_pds, region, protected, has_pt) refl,
      record {
        pml4 =
            get_or-set_self t.pml4 0 (table t.pdpt_address) 0 (omega (arith, fits.pml4))
            ∙ table_lem t.pdpt_address
            ∙ omega (arith, fits.pdpt_aligned, fits.pdpt_bound);
        pml4_rest = λ i more.
            get_or-set_ne t.pml4 0 i (table t.pdpt_address) 0 (λ e. omega arith)
            ∙ fits.pml4_zeroed i;
        pdpt = λ g inside.
            pdpt_entry t.pds_address gibs g (get_or t.pdpt g 0) (get_or ys g 0) fits.pds_aligned
              fits.pds_bound (fits.pdpt_zeroed g) (entry g)
            ∙ rw (lt→ltb g gibs inside);
        pdpt_rest = λ g outside.
            pdpt_entry t.pds_address gibs g (get_or t.pdpt g 0) (get_or ys g 0) fits.pds_aligned
              fits.pds_bound (fits.pdpt_zeroed g) (entry g)
            ∙ ground arith;
        pds = λ i hi.
            pds_entry (gibs * 512) p t.pt_address i t.pds fits.pds (omega (arith, fits.gibs_bound))
              (omega (arith, fits.inside)) fits.pt_aligned fits.pt_bound hi;
        pt = λ j hj. pt_entry p j t.pt fits.pt small fits.aligned hj;
        pml4_length = length-set t.pml4 0 (table t.pdpt_address) ∙ fits.pml4;
        pdpt_length = long ∙ fits.pdpt;
        pds_length =
            length-set (fill_each large 0 t.pds) (p / 2 ^ 21) (table t.pt_address)
            ∙ pds_long
            ∙ fits.pds;
        pt_length =
            length-set (fill_each open_page 0 t.pt) (p / 4096 % 512) (page p ept_read)
            ∙ pt_long
            ∙ fits.pt;
        pdpt_address = refl;
        pds_address = refl;
        pt_address = refl;
      },
    )
