-- ===== src/Ept/Grant.antt =====
-- What `grant_write` of src/vmx/ept.rs changes in the map.
use aleph0_virtualization_hy.Base.{
  subst, ℕ, ◌+◌, ◌*◌, ◌/◌, ◌%◌, ◌^◌, ◌≤◌, ◌<◌, ◌≡◌, ◌⊎◌, refl, sym, ap, ◌∙◌, true, false, Option,
  none, some, List, arith, ltb, ◌==◌, ==_iff, Bool-cases, inl, inr, get_or, set, length, length-set,
  bit_or, if◌then◌else◌, ok,
}
use aleph0_virtualization_hy.Ept.Entry.{ept_read, ept_write, eptp_new, with_access}
use aleph0_virtualization_hy.Ept.Fields.{with_access_lem}
use aleph0_virtualization_hy.Ept.Support.{InveptType}
use aleph0_virtualization_hy.Ept.Tables.{Tables}
use aleph0_virtualization_hy.Ept.Fill.{get_or-set}
use aleph0_virtualization_hy.Ept.Filled.{Fits, Filled}
use aleph0_virtualization_hy.Ept.Walk.{ept_translate, Holds}
use aleph0_virtualization_hy.Ept.Identity.{expected_access, translated}
use aleph0_virtualization_hy.Ept.Publish.{
  ProtectedPage, Statics, Ept, protected_page, build, write_u64, grant_write,
}
use aleph0_virtualization_hy.Ept.Build.{
  Inputs, build-results, build-protected_page, identity_map_end-IsEnd,
}

-- Two allocations of pages do not overlap.
abbrev pub Apart : ℕ → ℕ → ℕ → ℕ → Type 0
Apart a pages b more = (a + pages * 4096 ≤ b) ⊎ (b + more * 4096 ≤ a)

-- The tables after the write of a PT entry.
abbrev pub with_pt : Tables → ℕ → ℕ → Tables
with_pt t j value = record t { pt = set t.pt j value }

written : (memory : ℕ → ℕ) (a v b : ℕ) → (b == a) ≡ false → write_u64 memory a v b ≡ memory b
written memory a v b apart = rw apart refl

write-Holds :
    (memory : ℕ → ℕ) (a gibs j v : ℕ) (t : Tables)
    → Holds memory a t
    → length t.pml4 ≡ 512
    → length t.pdpt ≡ 512
    → length t.pds ≡ gibs * 512
    → length t.pt ≡ 512
    → Apart a 1 t.pt_address 1
    → Apart t.pdpt_address 1 t.pt_address 1
    → Apart t.pds_address gibs t.pt_address 1
    → j < 512
    → Holds (write_u64 memory (t.pt_address + j * 8) v) a (with_pt t j v)
write-Holds memory a gibs j v t holds l4 l3 l2 l1 apart4 apart3 apart2 hj = record {
  pml4 = λ i hi. written memory _ v _ (ground arith) ∙ holds.pml4 i hi;
  pdpt = λ i hi. written memory _ v _ (ground arith) ∙ holds.pdpt i hi;
  pds = λ i hi. written memory _ v _ (ground arith) ∙ holds.pds i hi;
  pt = λ i hi.
      let inside : i < length t.pt = omega (arith, length-set t.pt j v) in
      let old = holds.pt i inside in
      let new = get_or-set t.pt j i v (omega arith) in
      elim (Bool-cases (i == j)) [
        | inl same ↦
            let e : (t.pt_address + 8 * i == t.pt_address + j * 8) ≡ true = ground arith in
            rw (new, same, e) refl
        | inr other ↦
            let e : (t.pt_address + 8 * i == t.pt_address + j * 8) ≡ false = ground arith in
            rw (new, other, e) old
      ];
}

with_pt-Filled :
    (t0 t : Tables) (gibs p v : ℕ)
    → Filled t0 gibs p 1 t
    → p < 2 ^ 39
    → v ≡ with_access (get_or t.pt (p / 4096 % 512) 0) (bit_or ept_read ept_write)
    → Filled t0 gibs p 3 (with_pt t (p / 4096 % 512) v)
with_pt-Filled t0 t gibs p v filled small hv = record {
  pml4 = filled.pml4;
  pml4_rest = filled.pml4_rest;
  pdpt = filled.pdpt;
  pdpt_rest = filled.pdpt_rest;
  pds = filled.pds;
  pt = λ j hj.
      let raw = get_or t.pt (p / 4096 % 512) 0 in
      let was : raw ≡ p / 2 ^ 21 * 2 ^ 21 + p / 4096 % 512 * 4096 + 48 + 1 =
        filled.pt (p / 4096 % 512) (omega arith) ∙ ground arith in
      let now : v ≡ raw / 8 * 8 + 3 = hv ∙ with_access_lem raw 3 (omega arith) in
      let new = get_or-set t.pt (p / 4096 % 512) j v (omega (arith, filled.pt_length)) in
      let old = filled.pt j hj in
      elim (Bool-cases (j == p / 4096 % 512)) [
        | inl same ↦ let e = (==_iff j (p / 4096 % 512)).0 same in rw (new, same) (omega arith)
        | inr other ↦ rw (new, other) (old ∙ rw other refl)
      ];
  pml4_length = filled.pml4_length;
  pdpt_length = filled.pdpt_length;
  pds_length = filled.pds_length;
  pt_length = length-set t.pt (p / 4096 % 512) v ∙ filled.pt_length;
  pdpt_address = filled.pdpt_address;
  pds_address = filled.pds_address;
  pt_address = filled.pt_address;
}

translate-granted :
    (memory : ℕ → ℕ) (t0 t : Tables) (gibs p a entry gpa : ℕ)
    → Fits t0 gibs p
    → Filled t0 gibs p 1 t
    → Holds memory a t
    → a % 4096 ≡ 0
    → a < 2 ^ 52
    → Apart a 1 t0.pt_address 1
    → Apart t0.pdpt_address 1 t0.pt_address 1
    → Apart t0.pds_address gibs t0.pt_address 1
    → entry ≡ t0.pt_address + p / 4096 % 512 * 8
    → gpa < 2 ^ 48
    → ept_translate
        (write_u64 memory entry (with_access (memory entry) (bit_or ept_read ept_write)))
        (eptp_new a)
        gpa
      ≡ (if ltb gpa (gibs * 2 ^ 30) then some (gpa, expected_access p 3 gpa) else none)
translate-granted memory t0 t gibs p a entry gpa fits filled holds aligned bound apart4 apart3
      apart2 at_entry small =
    let j = p / 4096 % 512 in
    let low : p < 2 ^ 39 = omega (arith, fits.inside, fits.gibs_bound) in
    let hj : j < 512 = omega arith in
    let here : t.pt_address + j * 8 ≡ entry = omega (arith, at_entry, filled.pt_address) in
    let v = with_access (memory entry) (bit_or ept_read ept_write) in
    let read : memory entry ≡ get_or t.pt j 0 =
      ap memory (omega (arith, here)) ∙ holds.pt j (omega (arith, filled.pt_length)) in
    let held =
      write-Holds memory a gibs j v t holds filled.pml4_length filled.pdpt_length filled.pds_length
        filled.pt_length (ground (arith, filled.pt_address))
        (ground (arith, filled.pt_address, filled.pdpt_address))
        (ground (arith, filled.pt_address, filled.pds_address)) hj in
    let after =
      with_pt-Filled t0 t gibs p v filled low
        (ap (λ x. with_access x (bit_or ept_read ept_write)) read) in
    translated (write_u64 memory entry v) t0 (with_pt t j v) gibs p 3
      (omega arith, omega arith, refl) fits after a
      (subst (λ x. Holds (write_u64 memory x v) a (with_pt t j v)) here held) gpa aligned bound
      small

-- After `build`, `grant_write` of the page that the handler finds makes that page readable and
-- writable, and changes the translation of no other address, when the page of the PT overlaps no
-- other table.
pub grant_write-ept_translate :
    (regions : List (ℕ × ℕ)) (allocate : ℕ → ℕ → Option ℕ) (page end pml4 pdpt pds pt : ℕ)
    (invept : InveptType) (s s' : Statics) (ept : Ept) (t : Tables) (memory : ℕ → ℕ) (gpa : ℕ)
    (found : ProtectedPage) (instruction : InveptType → ℕ → ℕ)
    → Inputs regions allocate page end pml4 pdpt pds pt
    → protected_page s ≡ none
    → build (some regions) allocate page invept s ≡ some (ok (ept, t, s'))
    → protected_page s' ≡ some found
    → Holds memory pml4 t
    → Apart pml4 1 pt 1
    → Apart pdpt 1 pt 1
    → Apart pds (end / 2 ^ 30) pt 1
    → gpa < 2 ^ 48
    → ept_translate (grant_write instruction found memory).0 ept.eptp gpa
      ≡ (if ltb gpa ept.end then some (gpa, expected_access page 3 gpa) else none)
unfolding grant_write
grant_write-ept_translate regions allocate page end pml4 pdpt pds pt invept s s' ept t memory gpa
      found instruction i none_yet e read holds apart4 apart3 apart2 small =
    let (is_ept, filled, fits, s_is) =
      build-results regions allocate page end pml4 pdpt pds pt invept s s' ept t i none_yet e in
    let (t2, s2, e2, read2) =
      build-protected_page regions allocate page end pml4 pdpt pds pt invept s i none_yet in
    let same : s2 ≡ s' = cc in
    let j = page / 4096 % 512 in
    let is_found : record { gpa = page; entry = pt + j * 8; eptp = eptp_new pml4; invept = invept }
        ≡ found =
      cc in
    let entry : found.entry ≡ pt + j * 8 = ap (λ (x : ProtectedPage). x.entry) (sym is_found) in
    let is_end = identity_map_end-IsEnd regions end i.ends in
    let whole : end / 2 ^ 30 * 2 ^ 30 ≡ end = omega (arith, is_end.whole) in
    let at_eptp : ept.eptp ≡ eptp_new pml4 = ap (λ (x : Ept). x.eptp) is_ept in
    let at_end : ept.end ≡ end = ap (λ (x : Ept). x.end) is_ept in
    let after = (grant_write instruction found memory).0 in
    let walk =
      translate-granted memory _ t (end / 2 ^ 30) page pml4 found.entry gpa fits filled holds
        i.pml4_pages.aligned (omega (arith, i.pml4_pages.bound)) apart4 apart3 apart2 entry small in
    ap (λ (x : ℕ). ept_translate after x gpa) at_eptp
    ∙ walk
    ∙ ap (λ (x : ℕ). if ltb gpa x then some (gpa, expected_access page 3 gpa) else none)
        (whole ∙ sym at_end)
