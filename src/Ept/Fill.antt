-- ===== src/Ept/Fill.antt =====
-- What each slice holds after `fill_identity_map` of src/vmx/ept.rs, entry by entry.
use aleph0_virtualization_hy.Base.{
  ℕ, zero, suc, ◌+◌, ◌*◌, ◌≤◌, ◌<◌, ◌≡◌, refl, sym, ap, ◌∙◌, ◌&&◌, some, List, [], ◌∷◌, arith, leb,
  ltb, ◌==◌, ==_iff, Bool-cases, inl, inr, u64, length, get_or, set, length-set, get_or-set_self,
  get_or-set_ne, if◌then◌else◌,
}
use aleph0_virtualization_hy.Ept.Entry.{page_size, table}
use aleph0_virtualization_hy.Ept.Tables.{store, fill_pdpt, fill_each}

pub length-fill_each : (f : ℕ → ℕ) (i : ℕ) (xs : List ℕ) → length (fill_each f i xs) ≡ length xs
unfolding fill_each
length-fill_each f i [] = refl
length-fill_each f i (x ∷ xs) = ap suc (length-fill_each f (i + 1) xs)

pub get_or-fill_each :
    (f : ℕ → ℕ) (i j : ℕ) (xs : List ℕ) → j < length xs → get_or (fill_each f i xs) j 0 ≡ f (i + j)
unfolding fill_each
get_or-fill_each f i j [] h = absurd (omega arith)
get_or-fill_each f i zero (x ∷ xs) h = ap f (omega arith)
get_or-fill_each f i (suc j) (x ∷ xs) h =
    get_or-fill_each f (i + 1) j xs (omega arith) ∙ ap f (omega arith)

pub store_lem : (xs : List ℕ) (i v : ℕ) → i < length xs → store xs i v ≡ some (set xs i v)
unfolding store
store_lem xs i v h = ground arith

pub get_or-set :
    (xs : List ℕ) (i j v : ℕ)
    → i < length xs
    → get_or (set xs i v) j 0 ≡ (if j == i then v else get_or xs j 0)
get_or-set xs i j v h = elim (Bool-cases (j == i)) [
  | inl same ↦
      let e : j ≡ i = (==_iff j i).0 same in
      rw same (ap (λ (t : ℕ). get_or (set xs i v) t 0) e ∙ get_or-set_self xs i v 0 h)
  | inr other ↦ rw other (get_or-set_ne xs i j v 0 (λ e. ground arith))
]

-- One more entry at the start of the filled range.
fill_step :
    (a left gib i y x x' v : ℕ)
    → v ≡ table (u64 (a + u64 (gib * page_size)))
    → y ≡ (
        if leb (gib + 1) i && ltb i (gib + 1 + left)
        then table (u64 (a + u64 (i * page_size)))
        else x')
    → x' ≡ (if i == gib then v else x)
    → y ≡ (if leb gib i && ltb i (gib + suc left) then table (u64 (a + u64 (i * page_size))) else x)
fill_step a left gib i y x x' v hv hy hx = elim (Bool-cases (i == gib)) [
  | inl same ↦
      let e : i ≡ gib = (==_iff i gib).0 same in
      let named : v ≡ table (u64 (a + u64 (i * page_size))) =
        hv ∙ ap (λ t. table (u64 (a + u64 (t * page_size)))) (sym e) in
      ground arith
  | inr other ↦ ground arith
]

pub fill_pdpt_lem :
    (a left gib : ℕ) (xs : List ℕ)
    → gib + left ≤ length xs
    → (ys : List ℕ) × (fill_pdpt a left gib xs ≡ some ys)
      × (length ys ≡ length xs)
      × ((i : ℕ)
          → get_or ys i 0 ≡ (
              if leb gib i && ltb i (gib + left)
              then table (u64 (a + u64 (i * page_size)))
              else get_or xs i 0))
unfolding fill_pdpt
fill_pdpt_lem a zero gib xs h = (xs, refl, refl, λ i. ground arith)
fill_pdpt_lem a (suc left) gib xs h =
    let v = table (u64 (a + u64 (gib * page_size))) in
    let inside : gib < length xs = omega arith in
    let (ys, e, l, k) =
      fill_pdpt_lem a left (gib + 1) (set xs gib v) (omega (arith, length-set xs gib v)) in
    (
      ys,
      rw (store_lem xs gib v inside) e,
      l ∙ length-set xs gib v,
      λ i.
          fill_step a left gib i (get_or ys i 0) (get_or xs i 0) (get_or (set xs gib v) i 0) v refl
            (k i) (get_or-set xs gib i v inside),
    )
