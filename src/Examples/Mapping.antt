-- ===== src/Examples/Mapping.antt =====
-- The identity map of src/vmx/ept.rs for a machine with 1 GiB of memory.
use aleph0_virtualization_hy.Base.{
  ℕ, ◌+◌, ◌-◌, ◌*◌, ◌/◌, ◌^◌, ◌<◌, ◌≡◌, refl, ap, ◌∙◌, arith, List, [], ◌∷◌, Option, some, none,
  inl, ltb, ◌&&◌, ◌||◌, get_or, u64, ok, if◌then◌else◌, true, false,
}
use aleph0_virtualization_hy.Msr.Controls.{allows}
use aleph0_virtualization_hy.Ept.Entry.{eptp_new}
use aleph0_virtualization_hy.Ept.Support.{single_context, secondary_enable_ept, check_support}
use aleph0_virtualization_hy.Ept.Capable.{accepted, has_bit, preferred, check_support_lem}
use aleph0_virtualization_hy.Ept.Reach.{highest_end, map_end_for, identity_map_end-exact}
use aleph0_virtualization_hy.Ept.Range.{identity_map_end}
use aleph0_virtualization_hy.Ept.Tables.{Tables}
use aleph0_virtualization_hy.Ept.Filled.{Filled}
use aleph0_virtualization_hy.Ept.Walk.{ept_translate, Holds}
use aleph0_virtualization_hy.Ept.Identity.{expected_access}
use aleph0_virtualization_hy.Ept.Publish.{
  ProtectedPage, Statics, initial_statics, decode_invept, Ept, published, protected_page, build,
  grant_write, zeroed_tables,
}
use aleph0_virtualization_hy.Ept.Build.{
  Inputs, build-Filled, build-protected_page, build-ept_translate,
}
use aleph0_virtualization_hy.Ept.Grant.{grant_write-ept_translate}

abbrev regions : List (ℕ × ℕ)
regions = (0, 0x100) ∷ (0x10_0000, 0x1000) ∷ []

identity_map_end-exact_example : identity_map_end regions ≡ map_end_for (highest_end regions)
identity_map_end-exact_example = identity_map_end-exact regions

one_gib : identity_map_end regions ≡ ok (2 ^ 30)
one_gib = identity_map_end-exact regions

check_support_lem_example : accepted (check_support (2 ^ 33) 0x0610_4040) ≡ (
    if allows (2 ^ 33) secondary_enable_ept
      && has_bit 6 0x0610_4040
      && has_bit 14 0x0610_4040
      && has_bit 16 0x0610_4040
      && has_bit 20 0x0610_4040
      && (has_bit 25 0x0610_4040 || has_bit 26 0x0610_4040)
    then some (preferred 0x0610_4040)
    else none)
check_support_lem_example = check_support_lem (2 ^ 33) 0x0610_4040

-- The firmware hands out four pages from 16 MiB on.
abbrev allocate : ℕ → ℕ → Option ℕ
allocate i pages = some (0x100_0000 + i * 0x1000)

inputs : Inputs regions allocate 0x5000 (2 ^ 30) 0x100_0000 0x100_1000 0x100_2000 0x100_3000
inputs = record {
  ends = one_gib;
  inside = omega arith;
  aligned = refl;
  pml4_given = refl;
  pdpt_given = refl;
  pds_given = refl;
  pt_given = refl;
  pml4_pages = record { aligned = refl; bound = omega arith };
  pdpt_pages = record { aligned = refl; bound = omega arith };
  pds_pages = record { aligned = refl; bound = omega arith };
  pt_pages = record { aligned = refl; bound = omega arith };
}

none_yet : protected_page initial_statics ≡ none
unfolding protected_page decode_invept
none_yet = refl

-- The tables of that build.
abbrev tables : Tables
tables =
    (build-Filled regions allocate 0x5000 (2 ^ 30) 0x100_0000 0x100_1000 0x100_2000 0x100_3000
      single_context initial_statics inputs none_yet).0

abbrev ept : Ept
ept = record { eptp = eptp_new 0x100_0000; end = 2 ^ 30; table_pages = 4 }

abbrev found : ProtectedPage
found = record {
  gpa = 0x5000;
  entry = 0x100_3028;
  eptp = eptp_new 0x100_0000;
  invept = single_context;
}

-- Memory that holds four tables of 4096 bytes, the PML4 at 16 MiB.
abbrev memory_of : Tables → ℕ → ℕ
memory_of t x =
    if ltb x 0x100_1000
    then get_or t.pml4 ((x - 0x100_0000) / 8) 0
    else if ltb x 0x100_2000
    then get_or t.pdpt ((x - 0x100_1000) / 8) 0
    else if ltb x 0x100_3000
    then get_or t.pds ((x - 0x100_2000) / 8) 0
    else get_or t.pt ((x - 0x100_3000) / 8) 0

reads_pml4 : (t : Tables) (i : ℕ) → i < 512 → memory_of t (0x100_0000 + 8 * i) ≡ get_or t.pml4 i 0
reads_pml4 t i h =
    let at : (0x100_0000 + 8 * i - 0x100_0000) / 8 ≡ i = omega arith in
    let low : ltb (0x100_0000 + 8 * i) 0x100_1000 ≡ true = ground arith in rw (low, at) refl

reads_pdpt : (t : Tables) (i : ℕ) → i < 512 → memory_of t (0x100_1000 + 8 * i) ≡ get_or t.pdpt i 0
reads_pdpt t i h =
    let at : (0x100_1000 + 8 * i - 0x100_1000) / 8 ≡ i = omega arith in
    let past : ltb (0x100_1000 + 8 * i) 0x100_1000 ≡ false = ground arith in
    let low : ltb (0x100_1000 + 8 * i) 0x100_2000 ≡ true = ground arith in rw (past, low, at) refl

reads_pds : (t : Tables) (i : ℕ) → i < 512 → memory_of t (0x100_2000 + 8 * i) ≡ get_or t.pds i 0
reads_pds t i h =
    let at : (0x100_2000 + 8 * i - 0x100_2000) / 8 ≡ i = omega arith in
    let past : ltb (0x100_2000 + 8 * i) 0x100_1000 ≡ false = ground arith in
    let past' : ltb (0x100_2000 + 8 * i) 0x100_2000 ≡ false = ground arith in
    let low : ltb (0x100_2000 + 8 * i) 0x100_3000 ≡ true = ground arith in
    rw (past, past', low, at) refl

reads_pt : (t : Tables) (i : ℕ) → i < 512 → memory_of t (0x100_3000 + 8 * i) ≡ get_or t.pt i 0
reads_pt t i h =
    let at : (0x100_3000 + 8 * i - 0x100_3000) / 8 ≡ i = omega arith in
    let past : ltb (0x100_3000 + 8 * i) 0x100_1000 ≡ false = ground arith in
    let past' : ltb (0x100_3000 + 8 * i) 0x100_2000 ≡ false = ground arith in
    let past'' : ltb (0x100_3000 + 8 * i) 0x100_3000 ≡ false = ground arith in
    rw (past, past', past'', at) refl

Filled-Holds :
    (t : Tables)
    → Filled (zeroed_tables 1 0x100_1000 0x100_2000 0x100_3000) 1 0x5000 1 t
    → Holds (memory_of t) 0x100_0000 t
Filled-Holds t filled = record {
  pml4 = λ i hi. reads_pml4 t i (omega (arith, filled.pml4_length));
  pdpt = λ i hi.
      ap (λ a. memory_of t (a + 8 * i)) filled.pdpt_address
      ∙ reads_pdpt t i (omega (arith, filled.pdpt_length));
  pds = λ i hi.
      ap (λ a. memory_of t (a + 8 * i)) filled.pds_address
      ∙ reads_pds t i (omega (arith, filled.pds_length));
  pt = λ i hi.
      ap (λ a. memory_of t (a + 8 * i)) filled.pt_address
      ∙ reads_pt t i (omega (arith, filled.pt_length));
}

tables-Holds : Holds (memory_of tables) 0x100_0000 tables
tables-Holds = Filled-Holds tables (
    (build-Filled regions allocate 0x5000 (2 ^ 30) 0x100_0000 0x100_1000 0x100_2000 0x100_3000
      single_context initial_statics inputs none_yet).2)

abbrev found_statics : Statics
found_statics = published (record found { entry = u64 (0x100_3000 + 5 * 8) })

building :
    build (some regions) allocate 0x5000 single_context initial_statics
    ≡ some (ok (ept, tables, found_statics))
building =
    (build-Filled regions allocate 0x5000 (2 ^ 30) 0x100_0000 0x100_1000 0x100_2000 0x100_3000
      single_context initial_statics inputs none_yet).1

build-protected_page_example :
    (t : Tables) × (s' : Statics) × (build
        (some regions)
        allocate
        0x5000
        single_context
        initial_statics
      ≡ some (ok (ept, t, s')))
    × (protected_page s' ≡ some found)
build-protected_page_example =
    build-protected_page regions allocate 0x5000 (2 ^ 30) 0x100_0000 0x100_1000 0x100_2000
      0x100_3000 single_context initial_statics inputs none_yet

build-ept_translate_example :
    ept_translate (memory_of tables) ept.eptp 0x5008
    ≡ (if ltb 0x5008 ept.end then some (0x5008, expected_access 0x5000 1 0x5008) else none)
build-ept_translate_example =
    build-ept_translate regions allocate 0x5000 (2 ^ 30) 0x100_0000 0x100_1000 0x100_2000 0x100_3000
      single_context initial_statics found_statics ept tables (memory_of tables) 0x5008 inputs
      none_yet building tables-Holds (omega arith)

finding : protected_page found_statics ≡ some found
unfolding protected_page decode_invept
finding = refl

grant_write-ept_translate_example :
    ept_translate (grant_write (λ kind eptp. 0) found (memory_of tables)).0 ept.eptp 0x5008
    ≡ (if ltb 0x5008 ept.end then some (0x5008, expected_access 0x5000 3 0x5008) else none)
grant_write-ept_translate_example =
    grant_write-ept_translate regions allocate 0x5000 (2 ^ 30) 0x100_0000 0x100_1000 0x100_2000
      0x100_3000 single_context initial_statics found_statics ept tables (memory_of tables) 0x5008
      found (λ kind eptp. 0) inputs none_yet building finding tables-Holds (inl (omega arith))
      (inl (omega arith)) (inl (omega arith)) (omega arith)
