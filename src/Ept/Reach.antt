-- ===== src/Ept/Reach.antt =====
-- What `identity_map_end` of src/vmx/ept.rs computes.
use aleph0_virtualization_hy.Base.{
  ℕ, ◌+◌, ◌-◌, ◌*◌, ◌/◌, ◌%◌, ◌^◌, ◌<◌, ◌≡◌, refl, ap, ◌∙◌, true, List, [], ◌∷◌, arith, leb, ltb,
  ◌==◌, Bool-cases, inl, inr, bit_and, not64, max, if◌then◌else◌, Result, ok, err,
}
use aleph0_virtualization_hy.Base.Bits.{bit_and_mask}
use aleph0_virtualization_hy.Ept.Entry.{size_1g}
use aleph0_virtualization_hy.Ept.Support.{EptError, empty_memory_map, range_too_large}
use aleph0_virtualization_hy.Ept.Range.{
  checked, region_end, round_up, map_end_from, identity_map_end,
}

-- The highest end of the regions, as an unbounded number.
abbrev pub highest_end : List (ℕ × ℕ) → ℕ
highest_end [] = 0
highest_end ((start, pages) ∷ regions) = max (start + pages * 4096) (highest_end regions)

-- The end of the map for that highest end.
abbrev pub map_end_for : ℕ → Result ℕ EptError
map_end_for highest =
    if leb (2 ^ 64) highest
    then err (range_too_large (2 ^ 64 - 1))
    else if highest == 0
    then err empty_memory_map
    else if ltb (2 ^ 39) highest
    then err (range_too_large highest)
    else ok ((highest + (2 ^ 30 - 1)) / 2 ^ 30 * 2 ^ 30)

round_up_lem : (h : ℕ) → h < 2 ^ 64 → round_up h ≡ map_end_for h
unfolding round_up
round_up_lem h bound =
    let padded = h + (2 ^ 30 - 1) in
    let cut : bit_and padded (not64 (size_1g - 1)) ≡ padded / 2 ^ 30 % 2 ^ 34 * 2 ^ 30 =
      bit_and_mask 34 30 padded in
    elim (Bool-cases (ltb padded (2 ^ 64))) [
      | inl fits ↦ rw fits (ground arith)
      | inr over ↦ rw over (ground arith)
    ]

region_end_lem : (start pages : ℕ) → region_end (start, pages) ≡ checked (start + pages * 4096)
unfolding region_end
region_end_lem start pages = elim (Bool-cases (ltb (pages * 4096) (2 ^ 64))) [
  | inl fits ↦ rw fits refl
  | inr over ↦ rw over (ground arith)
]

map_end_from_lem :
    (h : ℕ) (regions : List (ℕ × ℕ))
    → h < 2 ^ 64
    → map_end_from h regions ≡ map_end_for (max h (highest_end regions))
unfolding map_end_from
map_end_from_lem h [] bound =
    let e : h ≡ max h 0 = ground arith in round_up_lem h bound ∙ ap map_end_for e
map_end_from_lem h ((start, pages) ∷ regions) bound =
    let end = start + pages * 4096 in
    rw (region_end_lem start pages) (elim (Bool-cases (ltb end (2 ^ 64))) [
      | inl fits ↦
          let e : max (max h end) (highest_end regions) ≡ max h (max end (highest_end regions)) =
            ground arith in
          rw fits (map_end_from_lem (max h end) regions (ground arith) ∙ ap map_end_for e)
      | inr over ↦
          let past : leb (2 ^ 64) (max h (max end (highest_end regions))) ≡ true = ground arith in
          rw (over, past) refl
    ])

-- For every memory map, the end of the identity map is the highest end of a region, rounded up to
-- 1 GiB; the result is the matching error when that end does not fit in 64 bits, when there is no
-- memory, and when it is past 512 GiB.
pub identity_map_end-exact :
    (regions : List (ℕ × ℕ)) → identity_map_end regions ≡ map_end_for (highest_end regions)
unfolding identity_map_end
identity_map_end-exact regions =
    let e : max 0 (highest_end regions) ≡ highest_end regions = ground arith in
    map_end_from_lem 0 regions (omega arith) ∙ ap map_end_for e
