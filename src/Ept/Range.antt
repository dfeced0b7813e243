-- ===== src/Ept/Range.antt =====
-- `identity_map_end` of src/vmx/ept.rs: how far the identity map reaches.
use aleph0_virtualization_hy.Base.{
  ℕ, ◌+◌, ◌-◌, ◌*◌, ◌^◌, Option, none, some, List, [], ◌∷◌, bit_and, ltb, ◌==◌, not64, max,
  if◌then◌else◌, Result, ok, err,
}
use aleph0_virtualization_hy.Ept.Entry.{page_size, size_1g, max_identity_map}
use aleph0_virtualization_hy.Ept.Support.{EptError, empty_memory_map, range_too_large}

-- `u64::checked_mul` and `u64::checked_add`.
abbrev pub checked : ℕ → Option ℕ
checked n = if ltb n (2 ^ 64) then some n else none

infixl 5 ◌>>=◌
abbrev pub ◌>>=◌ {ℓ κ} : {A : Type ℓ} {B : Type κ} → Option A → (A → Option B) → Option B
none >>= f = none
some a >>= f = f a

-- `ok_or`, followed by `?`.
abbrev pub ok_or {ℓ κ} :
    {A : Type ℓ} {B : Type κ} → Option A → EptError → (A → Result B EptError) → Result B EptError
ok_or none e k = err e
ok_or (some a) e k = k a

unfoldable pub region_end : ℕ × ℕ → Option ℕ
region_end (start, pages) = checked (pages * page_size) >>= λ size. checked (start + size)

unfoldable pub round_up : ℕ → Result ℕ EptError
round_up highest =
    if highest == 0
    then err empty_memory_map
    else ok_or (checked (highest + (size_1g - 1))) (range_too_large highest) λ padded.
      let rounded = bit_and padded (not64 (size_1g - 1)) in
      if ltb max_identity_map rounded then err (range_too_large highest) else ok rounded

-- The loop over the regions, with the highest end so far.
unfoldable pub map_end_from : ℕ → List (ℕ × ℕ) → Result ℕ EptError
unfolding region_end round_up
map_end_from highest [] = round_up highest
map_end_from highest (region ∷ regions) =
    ok_or (region_end region) (range_too_large (2 ^ 64 - 1))
      λ end. map_end_from (max highest end) regions

unfoldable pub identity_map_end : List (ℕ × ℕ) → Result ℕ EptError
unfolding map_end_from
identity_map_end regions = map_end_from 0 regions
