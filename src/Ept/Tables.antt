-- ===== src/Ept/Tables.antt =====
-- `Tables` and `fill_identity_map` of src/vmx/ept.rs. A slice is a list of raw entries; an index
-- out of a slice is a panic, `none`. The `debug_assert` on the length of `pds` is not in a release
-- build, and is a hypothesis of the theorems.
use aleph0_virtualization_hy.Base.{
  ℕ, zero, suc, ◌+◌, ◌-◌, ◌*◌, Option, none, some, List, [], ◌∷◌, bit_and, ltb, not64, u64, length,
  set, if◌then◌else◌,
}
use aleph0_virtualization_hy.Ept.Entry.{
  ept_rwx, ept_read, entries, page_size, size_2m, pdpt, pd, pt, index, table, large_page, page,
}
use aleph0_virtualization_hy.Ept.Range.{◌>>=◌}

pub record Tables : Type 0 where
  pub pml4 : List ℕ
  pub pdpt : List ℕ
  pub pds : List ℕ
  pub pt : List ℕ
  pub pdpt_address : ℕ
  pub pds_address : ℕ
  pub pt_address : ℕ

-- `slice[i] = value`.
unfoldable pub store : List ℕ → ℕ → ℕ → Option (List ℕ)
store slice i value = if ltb i (length slice) then some (set slice i value) else none

-- `for gib in gib..gib + left`.
unfoldable pub fill_pdpt : ℕ → ℕ → ℕ → List ℕ → Option (List ℕ)
unfolding store
fill_pdpt pds_address zero gib slice = some slice
fill_pdpt pds_address (suc left) gib slice = do
  slice' ← store slice gib (table (u64 (pds_address + u64 (gib * page_size))))
  fill_pdpt pds_address left (gib + 1) slice'

-- `for (i, entry) in slice.iter_mut().enumerate() { *entry = f(i) }`, from `i` on.
unfoldable pub fill_each : (ℕ → ℕ) → ℕ → List ℕ → List ℕ
fill_each f i [] = []
fill_each f i (entry ∷ rest) = f i ∷ fill_each f (i + 1) rest

unfoldable pub fill_identity_map : Tables → ℕ → ℕ → Option (Tables × ℕ)
unfolding store fill_pdpt fill_each
fill_identity_map t gibs protected_page = do
  pml4' ← store t.pml4 0 (table t.pdpt_address)
  pdpt' ← fill_pdpt t.pds_address gibs 0 t.pdpt
  let large = fill_each (λ i. large_page (u64 (i * size_2m))) 0 t.pds
  let split = index pdpt protected_page * entries + index pd protected_page
  pds' ← store large split (table t.pt_address)
  let region = bit_and protected_page (not64 (size_2m - 1))
  let pages = fill_each (λ i. page (u64 (region + i * page_size)) ept_rwx) 0 t.pt
  let protected = index pt protected_page
  pt' ← store pages protected (page protected_page ept_read)
  some (record t { pml4 = pml4'; pdpt = pdpt'; pds = pds'; pt = pt' }, protected)
