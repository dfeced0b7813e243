-- ===== src/Ept/Build.antt =====
-- What `Ept::build` of src/vmx/ept.rs leaves: the map in memory and the published page.
use aleph0_virtualization_hy.Base.{
  ℕ, ◌+◌, ◌*◌, ◌/◌, ◌%◌, ◌^◌, ◌≤◌, ◌<◌, ◌≡◌, refl, sym, ap, ◌∙◌, false, Option, none, some, List,
  arith, leb, ltb, ◌!=◌, Option-cases, inl, inr, length-replicate, get_or-replicate, subst, u64,
  if◌then◌else◌, ok, err,
}
use aleph0_virtualization_hy.Ept.Entry.{eptp_new}
use aleph0_virtualization_hy.Ept.Support.{InveptType, single_context, all_context, already_built}
use aleph0_virtualization_hy.Ept.Range.{identity_map_end}
use aleph0_virtualization_hy.Ept.Reach.{highest_end, map_end_for, identity_map_end-exact}
use aleph0_virtualization_hy.Ept.Tables.{Tables}
use aleph0_virtualization_hy.Ept.Filled.{Fits, Filled, fill_identity_map-Filled}
use aleph0_virtualization_hy.Ept.Walk.{ept_translate, Holds}
use aleph0_virtualization_hy.Ept.Identity.{expected_access, translated}
use aleph0_virtualization_hy.Ept.Publish.{
  ProtectedPage, Statics, Ept, invept_value, decode_invept, publish, published, protected_page,
  zeroed_tables, build_tables, build,
}

-- Page allocation of the firmware: page-aligned, in the physical address space.
pub record IsPages (a pages : ℕ) : Type 0 where
  pub aligned : a % 4096 ≡ 0
  pub bound : a + pages * 4096 ≤ 2 ^ 52

-- An end that `identity_map_end` returns.
pub record IsEnd (end : ℕ) : Type 0 where
  pub whole : end % 2 ^ 30 ≡ 0
  pub bound : end ≤ 2 ^ 39

map_end_for-IsEnd : (h end : ℕ) → map_end_for h ≡ ok end → IsEnd end
map_end_for-IsEnd h end e = record { whole = ground arith; bound = ground arith }

pub identity_map_end-IsEnd :
    (regions : List (ℕ × ℕ)) (end : ℕ) → identity_map_end regions ≡ ok end → IsEnd end
identity_map_end-IsEnd regions end h =
    let exact = sym (identity_map_end-exact regions) ∙ h in
    map_end_for-IsEnd (highest_end regions) end exact

zeroed-Fits :
    (end page pdpt pds pt : ℕ)
    → IsEnd end
    → IsPages pdpt 1
    → IsPages pds (end / 2 ^ 30)
    → IsPages pt 1
    → page < end
    → page % 4096 ≡ 0
    → Fits (zeroed_tables (end / 2 ^ 30) pdpt pds pt) (end / 2 ^ 30) page
zeroed-Fits end page pdpt pds pt is_end pdpt_pages pds_pages pt_pages inside aligned = record {
  pml4 = length-replicate {A = ℕ} 512 0;
  pdpt = length-replicate {A = ℕ} 512 0;
  pds = length-replicate {A = ℕ} (end / 2 ^ 30 * 512) 0;
  pt = length-replicate {A = ℕ} 512 0;
  pml4_zeroed = λ i. get_or-replicate 512 i 0;
  pdpt_zeroed = λ i. get_or-replicate 512 i 0;
  pdpt_aligned = pdpt_pages.aligned;
  pdpt_bound = omega (arith, pdpt_pages.bound);
  pds_aligned = pds_pages.aligned;
  pds_bound = pds_pages.bound;
  pt_aligned = pt_pages.aligned;
  pt_bound = omega (arith, pt_pages.bound);
  gibs_bound = omega (arith, is_end.bound);
  inside = omega (arith, is_end.whole);
  aligned = aligned;
}

decode-invept_value : (kind : InveptType) → decode_invept (invept_value kind) ≡ some kind
unfolding decode_invept
decode-invept_value single_context = refl
decode-invept_value all_context = refl

-- A page that is published is the page that is read back, and a second page is refused.
publish-once :
    (page other : ProtectedPage) (s s' : Statics)
    → publish page s ≡ ok s'
    → (protected_page s ≡ none)
      × (protected_page s' ≡ some page)
      × (publish other s' ≡ err already_built)
unfolding publish protected_page
publish-once page other s s' h = elim (Option-cases (decode_invept s.invept_type)) [
  | inr (kind, used) ↦ let no : err already_built ≡ ok s' = rw (publish, used) at h in absurd cc
  | inl free ↦
      let same : published page ≡ s' =
        let now : ok (published page) ≡ ok s' = rw (publish, free) at h in cc in
      subst
        (λ x.
          (protected_page s ≡ none)
          × (protected_page x ≡ some page)
          × (publish other x ≡ err already_built))
        same
        (
          rw (protected_page, free) refl,
          rw (protected_page, decode-invept_value page.invept) refl,
          rw (publish, decode-invept_value page.invept) refl,
        )
]

-- Filling and publishing, at pages of the firmware.
build_tables-lem :
    (end page pml4 pdpt pds pt : ℕ) (invept : InveptType) (s : Statics)
    → decode_invept s.invept_type ≡ none
    → Fits (zeroed_tables (end / 2 ^ 30) pdpt pds pt) (end / 2 ^ 30) page
    → (t : Tables) × (build_tables end page invept s pml4 pdpt pds pt
        ≡ some (
            ok (
              record { eptp = eptp_new pml4; end = end; table_pages = end / 2 ^ 30 + 3 },
              t,
              published (record {
                gpa = page;
                entry = u64 (pt + page / 4096 % 512 * 8);
                eptp = eptp_new pml4;
                invept = invept;
              }),
            )))
      × Filled (zeroed_tables (end / 2 ^ 30) pdpt pds pt) (end / 2 ^ 30) page 1 t
unfolding build_tables publish
build_tables-lem end page pml4 pdpt pds pt invept s free fits =
    let (t, e, filled) = fill_identity_map-Filled _ _ _ fits in
    (t, rw (build_tables, e, publish, free) refl, filled)

-- What a call of `build` that gets as far as the tables was given.
pub record Inputs (regions : List (ℕ × ℕ)) (allocate : ℕ → ℕ → Option ℕ) (page : ℕ)
    (end pml4 pdpt pds pt : ℕ) : Type 0 where
  pub ends : identity_map_end regions ≡ ok end
  pub inside : page < end
  pub aligned : page % 4096 ≡ 0
  pub pml4_given : allocate 0 1 ≡ some pml4
  pub pdpt_given : allocate 1 1 ≡ some pdpt
  pub pds_given : allocate 2 (end / 2 ^ 30) ≡ some pds
  pub pt_given : allocate 3 1 ≡ some pt
  pub pml4_pages : IsPages pml4 1
  pub pdpt_pages : IsPages pdpt 1
  pub pds_pages : IsPages pds (end / 2 ^ 30)
  pub pt_pages : IsPages pt 1

build-build_tables :
    (regions : List (ℕ × ℕ)) (allocate : ℕ → ℕ → Option ℕ) (page end pml4 pdpt pds pt : ℕ)
    (invept : InveptType) (s : Statics)
    → Inputs regions allocate page end pml4 pdpt pds pt
    → build (some regions) allocate page invept s ≡ build_tables end page invept s pml4 pdpt pds pt
unfolding build
build-build_tables regions allocate page end pml4 pdpt pds pt invept s i =
    let low : leb end page ≡ false = ground (arith, i.inside) in
    let whole : (page % 4096 != 0) ≡ false = ground (arith, i.aligned) in
    rw (i.ends, low, whole, i.pml4_given, i.pdpt_given, i.pds_given, i.pt_given) refl

-- What `build` returns at given inputs, and the tables it fills.
pub build-Filled :
    (regions : List (ℕ × ℕ)) (allocate : ℕ → ℕ → Option ℕ) (page end pml4 pdpt pds pt : ℕ)
    (invept : InveptType) (s : Statics)
    → Inputs regions allocate page end pml4 pdpt pds pt
    → protected_page s ≡ none
    → (t : Tables) × (build (some regions) allocate page invept s
        ≡ some (
            ok (
              record { eptp = eptp_new pml4; end = end; table_pages = end / 2 ^ 30 + 3 },
              t,
              published (record {
                gpa = page;
                entry = u64 (pt + page / 4096 % 512 * 8);
                eptp = eptp_new pml4;
                invept = invept;
              }),
            )))
      × Filled (zeroed_tables (end / 2 ^ 30) pdpt pds pt) (end / 2 ^ 30) page 1 t
      × Fits (zeroed_tables (end / 2 ^ 30) pdpt pds pt) (end / 2 ^ 30) page
unfolding protected_page
build-Filled regions allocate page end pml4 pdpt pds pt invept s i none_yet =
    let is_end = identity_map_end-IsEnd regions end i.ends in
    let fits =
      zeroed-Fits end page pdpt pds pt is_end i.pdpt_pages i.pds_pages i.pt_pages i.inside
        i.aligned in
    let free : decode_invept s.invept_type ≡ none =
      elim (Option-cases (decode_invept s.invept_type)) [
        | inl free ↦ free
        | inr (kind, used) ↦ let no = rw (protected_page, used) at none_yet in absurd cc
      ] in
    let (t, e, filled) = build_tables-lem end page pml4 pdpt pds pt invept s free fits in
    (t, build-build_tables regions allocate page end pml4 pdpt pds pt invept s i ∙ e, filled, fits)

-- At a memory map, a page inside it and allocations as the firmware documents them, the first `build`
-- returns the EPT of that map without a panic, and the exit handler then finds the protected page
-- with its PT entry's address, the EPT pointer and the INVEPT type.
pub build-protected_page :
    (regions : List (ℕ × ℕ)) (allocate : ℕ → ℕ → Option ℕ) (page end pml4 pdpt pds pt : ℕ)
    (invept : InveptType) (s : Statics)
    → Inputs regions allocate page end pml4 pdpt pds pt
    → protected_page s ≡ none
    → (t : Tables) × (s' : Statics) × (build (some regions) allocate page invept s
        ≡ some (
            ok (record { eptp = eptp_new pml4; end = end; table_pages = end / 2 ^ 30 + 3 }, t, s')))
      × (protected_page s'
          ≡ some (record {
            gpa = page;
            entry = pt + page / 4096 % 512 * 8;
            eptp = eptp_new pml4;
            invept = invept;
          }))
unfolding protected_page
build-protected_page regions allocate page end pml4 pdpt pds pt invept s i none_yet =
    let (t, e, filled, fits) =
      build-Filled regions allocate page end pml4 pdpt pds pt invept s i none_yet in
    let in_word : u64 (pt + page / 4096 % 512 * 8) ≡ pt + page / 4096 % 512 * 8 =
      omega (arith, i.pt_pages.bound) in
    (t, _, e, rw (protected_page, decode-invept_value invept, in_word) refl)

-- The same of any result of `build`.
pub build-results :
    (regions : List (ℕ × ℕ)) (allocate : ℕ → ℕ → Option ℕ) (page end pml4 pdpt pds pt : ℕ)
    (invept : InveptType) (s s' : Statics) (ept : Ept) (t : Tables)
    → Inputs regions allocate page end pml4 pdpt pds pt
    → protected_page s ≡ none
    → build (some regions) allocate page invept s ≡ some (ok (ept, t, s'))
    → (ept ≡ record { eptp = eptp_new pml4; end = end; table_pages = end / 2 ^ 30 + 3 })
      × Filled (zeroed_tables (end / 2 ^ 30) pdpt pds pt) (end / 2 ^ 30) page 1 t
      × Fits (zeroed_tables (end / 2 ^ 30) pdpt pds pt) (end / 2 ^ 30) page
      × (s'
          ≡ published (record {
            gpa = page;
            entry = u64 (pt + page / 4096 % 512 * 8);
            eptp = eptp_new pml4;
            invept = invept;
          }))
build-results regions allocate page end pml4 pdpt pds pt invept s s' ept t i none_yet e =
    let (built, eb, filled, fits) =
      build-Filled regions allocate page end pml4 pdpt pds pt invept s i none_yet in
    let same : built ≡ t = cc in
    (
      cc,
      subst (λ x. Filled (zeroed_tables (end / 2 ^ 30) pdpt pds pt) (end / 2 ^ 30) page 1 x) same
          filled,
      fits,
      cc,
    )

-- With the tables that `build` returns in memory, the CPU maps each guest-physical address below the
-- end to itself, with every access but on the protected page, which is read-only, and maps no other.
pub build-ept_translate :
    (regions : List (ℕ × ℕ)) (allocate : ℕ → ℕ → Option ℕ) (page end pml4 pdpt pds pt : ℕ)
    (invept : InveptType) (s s' : Statics) (ept : Ept) (t : Tables) (memory : ℕ → ℕ) (gpa : ℕ)
    → Inputs regions allocate page end pml4 pdpt pds pt
    → protected_page s ≡ none
    → build (some regions) allocate page invept s ≡ some (ok (ept, t, s'))
    → Holds memory pml4 t
    → gpa < 2 ^ 48
    → ept_translate memory ept.eptp gpa
      ≡ (if ltb gpa ept.end then some (gpa, expected_access page 1 gpa) else none)
build-ept_translate regions allocate page end pml4 pdpt pds pt invept s s' ept t memory gpa i
      none_yet e holds small =
    let (is_ept, filled, fits, s_is) =
      build-results regions allocate page end pml4 pdpt pds pt invept s s' ept t i none_yet e in
    let is_end = identity_map_end-IsEnd regions end i.ends in
    let whole : end / 2 ^ 30 * 2 ^ 30 ≡ end = omega (arith, is_end.whole) in
    let at_eptp : ept.eptp ≡ eptp_new pml4 = ap (λ (x : Ept). x.eptp) is_ept in
    let at_end : ept.end ≡ end = ap (λ (x : Ept). x.end) is_ept in
    let walk =
      translated memory _ t (end / 2 ^ 30) page 1 (omega arith, omega arith, refl) fits filled pml4
        holds gpa i.pml4_pages.aligned (omega (arith, i.pml4_pages.bound)) small in
    ap (λ (x : ℕ). ept_translate memory x gpa) at_eptp
    ∙ walk
    ∙ ap (λ (x : ℕ). if ltb gpa x then some (gpa, expected_access page 1 gpa) else none)
        (whole ∙ sym at_end)
