-- ===== src/ExitBitmaps/Msrs.antt =====
-- The MSR half of `fill` in src/vmx/exit_bitmaps.rs.
use aleph0_virtualization_hy.Base.{
  ℕ, ◌<◌, ◌≡◌, refl, ap, ◌∙◌, Bool, true, false, ◌&&◌, ◌||◌, Option, none, some, List, [], ◌∷◌,
  arith, ◌==◌, if◌then◌else◌, length, length-set,
}
use aleph0_virtualization_hy.ExitBitmaps.{
  MsrAccess, read, write, msr_bit, fill_msr_bit, fill_msrs, contains, ◌>>=◌,
}
use aleph0_virtualization_hy.ExitBitmaps.Page.{bit_at, or_bit, bit_at-or_bit, or_byte_fits}

-- Two MSRs share a bit only if they are one MSR, with one access.
abbrev same_access : MsrAccess → MsrAccess → Bool
same_access read read = true
same_access write write = true
same_access _ _ = false

abbrev SomeBit : Option (ℕ × ℕ) → ℕ → ℕ → Type 0
SomeBit o offset i = o ≡ some (offset, i)

-- A bit lies in the page, and it names its MSR and its access.
pub msr_bit_bounds :
    (m : ℕ) (acc : MsrAccess) {o i : ℕ} → msr_bit m acc ≡ some (o, i) → (o < 4096) × (i < 8)
unfolding msr_bit
msr_bit_bounds m read e = ground arith
msr_bit_bounds m write e = ground arith

msr_bit_inj :
    (m m' : ℕ) (acc acc' : MsrAccess) {o i o' i' : ℕ}
    → msr_bit m acc ≡ some (o, i)
    → msr_bit m' acc' ≡ some (o', i')
    → ((o == o') && (i == i')) ≡ (same_access acc acc' && (m == m'))
unfolding msr_bit
msr_bit_inj m m' read read e e' = ground arith
msr_bit_inj m m' read write e e' = ground arith
msr_bit_inj m m' write read e e' = ground arith
msr_bit_inj m m' write write e e' = ground arith

msr_bit_other :
    (x m : ℕ) (acc acc' : MsrAccess) {r : ℕ × ℕ}
    → msr_bit x acc ≡ none
    → msr_bit m acc' ≡ some r
    → (x == m) ≡ false
unfolding msr_bit
msr_bit_other x m acc acc' e e' = ground arith

-- The bits of `page` and those of the MSRs that pass the test are set in `page'`, and no others.
abbrev pub Marks : (MsrAccess → ℕ → Bool) → List ℕ → List ℕ → Type 0
Marks test page page' =
    (m : ℕ) (acc : MsrAccess) (o i : ℕ)
    → msr_bit m acc ≡ some (o, i)
    → bit_at page' o i ≡ (if test acc m then 1 else bit_at page o i)

abbrev pub Filled : (MsrAccess → ℕ → Bool) → List ℕ → Option (List ℕ) → Type 0
Filled test page result =
    (page' : List ℕ) × (result ≡ some page') × (length page' ≡ 4096) × Marks test page page'

module _ (x : ℕ) (acc : MsrAccess) (page : List ℕ) (len : length page ≡ 4096) where
  turn_at :
      (r : Option (ℕ × ℕ))
      → msr_bit x acc ≡ r
      → Filled (λ acc' m. same_access acc acc' && (x == m)) page (fill_msr_bit page r)
  unfolding fill_msr_bit
  turn_at none e =
      (page, refl, len, λ m acc' o i e'. ground (arith, msr_bit_other x m acc acc' e e'))
  turn_at (some (o, i)) e =
      let inside : o < length page = omega (arith, msr_bit_bounds x acc e, len) in
      (
        or_bit page o i,
        or_byte_fits page o i inside,
        length-set page o _ ∙ len,
        λ m acc' o' i' e'.
            bit_at-or_bit page o i o' i' inside
            ∙ ap (λ (t : Bool). if t then 1 else bit_at page o' i') (msr_bit_inj x m acc acc' e e'),
      )

  -- What one access of one MSR sets, in a page of the right size.
  turn_lem :
      Filled (λ acc' m. same_access acc acc' && (x == m)) page (fill_msr_bit page (msr_bit x acc))
  turn_lem = turn_at (msr_bit x acc) refl

-- A read turn and a write turn together set every bit of the MSR.
both_turns :
    (x m : ℕ) (acc : MsrAccess) (rest : Bool) (b0 b1 b2 b3 : ℕ)
    → b1 ≡ (if same_access read acc && (x == m) then 1 else b0)
    → b2 ≡ (if same_access write acc && (x == m) then 1 else b1)
    → b3 ≡ (if rest then 1 else b2)
    → b3 ≡ (if (x == m) || rest then 1 else b0)
both_turns x m read rest b0 b1 b2 b3 h1 h2 h3 = ground arith
both_turns x m write rest b0 b1 b2 b3 h1 h2 h3 = ground arith

-- Every MSR of the list has both its bits set afterwards, and no bit of another MSR changes.
pub fill_msrs_lem :
    (ms : List ℕ) (page : List ℕ)
    → length page ≡ 4096
    → Filled (λ _ m. contains ms m) page (fill_msrs ms page)
unfolding fill_msrs
fill_msrs_lem [] page len = (page, refl, len, λ m acc o i e. refl)
fill_msrs_lem (x ∷ ms) page len =
    let (p1, e1, l1, k1) = turn_lem x read page len in
    let (p2, e2, l2, k2) = turn_lem x write p1 l1 in
    let (p3, e3, l3, k3) = fill_msrs_lem ms p2 l2 in
    (
      p3,
      rw (e1, ◌>>=◌, e2) e3,
      l3,
      λ m acc o i e.
          both_turns x m acc (contains ms m) _ _ _ _ (k1 m acc o i e) (k2 m acc o i e)
            (k3 m acc o i e),
    )
