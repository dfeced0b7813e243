-- ===== src/HostTables/Installed.antt =====
-- What src/vmx/host_tables.rs has put into the GDT.
use aleph0_virtualization_hy.Base.{
  ℕ, ◌+◌, ◌*◌, ◌/◌, ◌%◌, ◌^◌, ◌≤◌, ◌<◌, ◌≡◌, inl, inr, refl, sym, ap, ap₂, ◌∙◌, subst, true, false,
  ◌&&◌, ◌||◌, arith, some, List, [], ◌∷◌, length, Bool-cases, Option-cases, ltb, ◌==◌, ◌!=◌,
  bit_and, bit_or, u16, u32, shr, take, drop, from_le_bytes, read_bytes, Result, ok,
}
use aleph0_virtualization_hy.Base.Bits.{bit_and_low, bit_or_add_high}
use aleph0_virtualization_hy.Segment
use aleph0_virtualization_hy.Segment.{DescriptorTable, Host, system_descriptor_base}
use aleph0_virtualization_hy.Segment.Layout.{descriptor_lem}
use aleph0_virtualization_hy.HostTables.{
  tss_available_present, TssRegion, GdtError, tss_descriptor, GdtRegion, write_bytes,
  append_tss_descriptor, descriptor_holds, verify_tss_descriptor,
}

write_bytes_before :
    (bytes : ℕ → ℕ) (bs : List ℕ) (offset i : ℕ)
    → i < offset
    → write_bytes bytes offset bs i ≡ bytes i
write_bytes_before bytes [] offset i h = refl
write_bytes_before bytes (b ∷ bs) offset i h =
    let other : (i == offset) ≡ false = ground arith in
    rw other (write_bytes_before bytes bs (offset + 1) i (omega arith))

-- What is written is read back.
read_bytes-write_bytes :
    (bs : List ℕ) (bytes seen : ℕ → ℕ) (offset : ℕ)
    → ((i : ℕ) → offset ≤ i → seen i ≡ write_bytes bytes offset bs i)
    → read_bytes seen offset (length bs) ≡ bs
read_bytes-write_bytes [] bytes seen offset same = refl
read_bytes-write_bytes (b ∷ bs) bytes seen offset same =
    let here : (offset == offset) ≡ true = ground arith in
    ap₂ (λ (x : ℕ) (xs : List ℕ). x ∷ xs) (same offset (omega arith) ∙ rw here refl)
      (read_bytes-write_bytes bs bytes seen (offset + 1) (λ i h.
        let past : (i == offset) ≡ false = ground arith in same i (omega arith) ∙ rw past refl))

-- The TSS descriptor says what it was made of.
pub tss_descriptor_lem :
    (base : ℕ)
    → base < 2 ^ 64
    → (Segment.limit (from_le_bytes (take 8 (tss_descriptor base 0x67))) ≡ 0x67)
      × (system_descriptor_base (tss_descriptor base 0x67) ≡ base)
unfolding tss_descriptor system_descriptor_base
tss_descriptor_lem base h =
    let low = from_le_bytes (take 8 (tss_descriptor base 0x67)) in
    let sum : low
        ≡ 0x67
          + 2 ^ 16 * (base % 2 ^ 16)
          + 2 ^ 32 * (base / 2 ^ 16 % 2 ^ 8)
          + 2 ^ 40 * 0x89
          + 2 ^ 56 * (base / 2 ^ 24 % 2 ^ 8) =
      omega arith in
    let (low_base, low_limit, rights) = descriptor_lem low in
    let high = u32 (shr base 32) in
    let high_sum : from_le_bytes (take 4 (drop 8 (tss_descriptor base 0x67))) ≡ high =
      omega arith in
    let bytes_clear : (low / 2 ^ 55 % 2 == 1) ≡ false = ground (arith, sum) in
    (
      low_limit ∙ rw bytes_clear (omega (arith, sum)),
      ap₂ (λ (x : ℕ) (y : ℕ). bit_or x (y * 2 ^ 32)) low_base high_sum
          ∙ bit_or_add_high 32 high (low / 2 ^ 56 % 2 ^ 8 * 2 ^ 24 + low / 2 ^ 16 % 2 ^ 24)
              (omega arith)
          ∙ omega (arith, sum),
    )

read_back :
    (base offset : ℕ) (bytes : ℕ → ℕ)
    → read_bytes (write_bytes bytes offset (tss_descriptor base 0x67)) offset 16
      ≡ tss_descriptor base 0x67
unfolding tss_descriptor
read_back base offset bytes =
    read_bytes-write_bytes (tss_descriptor base 0x67) bytes _ offset (λ i h. refl)

constant_bytes :
    (base : ℕ)
    → (((from_le_bytes (take 1 (drop 5 (tss_descriptor base 0x67))) == tss_available_present)
        && ((bit_and (from_le_bytes (take 1 (drop 6 (tss_descriptor base 0x67)))) 0xF0 == 0)
            && (from_le_bytes (drop 12 (tss_descriptor base 0x67)) == 0))))
      ≡ true
unfolding tss_descriptor
constant_bytes base = refl

holds_lem :
    (base : ℕ)
    → base < 2 ^ 64
    → descriptor_holds (tss_descriptor base 0x67) (record { base = base }) ≡ true
unfolding descriptor_holds
holds_lem base word =
    let (limit, at) = tss_descriptor_lem base word in
    let limit_same : (Segment.limit (from_le_bytes (take 8 (tss_descriptor base 0x67))) == 0x67)
        ≡ true =
      ground (arith, limit) in
    let base_same : (system_descriptor_base (tss_descriptor base 0x67) == base) ≡ true =
      ground (arith, at) in
    rw (limit_same, base_same) (constant_bytes base)

verified_lem :
    (page base original offset : ℕ) (bytes : ℕ → ℕ)
    → base < 2 ^ 64
    → 0 < offset
    → offset % 8 ≡ 0
    → offset + 16 ≤ 4096
    → verify_tss_descriptor
        (record {
          page = page;
          bytes = write_bytes bytes offset (tss_descriptor base 0x67);
          original_length = original;
          tss_selector = some offset;
        })
        (record { base = base })
      ≡ true
unfolding verify_tss_descriptor
verified_lem page base original offset bytes word positive aligned fits =
    let read : read_bytes (write_bytes bytes offset (tss_descriptor base 0x67)) offset 16
        ≡ tss_descriptor base 0x67 =
      read_back base offset bytes in
    let good : ((offset == 0) || ((bit_and offset 7 != 0) || ltb 4096 (offset + 16))) ≡ false =
      ground (arith, bit_and_low 3 offset) in
    rw good (ap (λ d. descriptor_holds d (record { base = base })) read ∙ holds_lem base word)

of_ok :
    (P : ℕ × GdtRegion → Type 0) (x a : ℕ × GdtRegion)
    → Path (Result (ℕ × GdtRegion) GdtError) (ok x) (ok a)
    → P x
    → P a
of_ok P x a h p = let same : x ≡ a = cc in subst P same p

abbrev pub IsAppended : GdtRegion → TssRegion → ℕ × GdtRegion → Type 0
IsAppended region tss (selector, region') =
    (verify_tss_descriptor region' tss ≡ true)
    × (region'.tss_selector ≡ some selector)
    × (region.original_length ≤ selector)
    × (selector + 16 ≤ 4096)
    × (selector % 8 ≡ 0)

appended :
    (region : GdtRegion) (tss : TssRegion)
    → tss.base < 2 ^ 64
    → 0 < region.original_length
    → (region.original_length + 7) / 8 * 8 + 16 ≤ 4096
    → let selector = u16 ((region.original_length + 7) / 8 * 8) in
      IsAppended region tss (
        selector,
        record region {
          bytes =
              write_bytes region.bytes
                ((region.original_length + 7) / 8 * 8)
                (tss_descriptor tss.base 0x67);
          tss_selector = some selector;
        },
      )
appended region tss word nonempty room =
    let offset = (region.original_length + 7) / 8 * 8 in
    let narrow : u16 offset ≡ offset = omega arith in
    subst
      (λ (s : ℕ). IsAppended region tss (
        s,
        record region {
          bytes = write_bytes region.bytes offset (tss_descriptor tss.base 0x67);
          tss_selector = some s;
        },
      ))
      (sym narrow)
      (
        verified_lem region.page tss.base region.original_length offset region.bytes word
            (omega arith) (omega arith) room,
        refl,
        omega arith,
        room,
        omega arith,
      )

-- The descriptor that `append_tss_descriptor` adds to a copied GDT passes `verify_tss_descriptor`, at
-- the selector that it returns, which has room in the page and whose low three bits are clear.
pub append_tss_descriptor-verify :
    (region region' : GdtRegion) (tss : TssRegion) (selector : ℕ)
    → tss.base < 2 ^ 64
    → 0 < region.original_length
    → append_tss_descriptor region tss ≡ ok (selector, region')
    → IsAppended region tss (selector, region')
unfolding append_tss_descriptor
append_tss_descriptor-verify region region' tss selector word nonempty h =
    let offset = (region.original_length + 7) / 8 * 8 in
    elim (Option-cases region.tss_selector) [
      | inr (old, e) ↦ let no = rw e at h in absurd cc
      | inl e ↦ elim (Bool-cases (ltb 4096 (offset + 16))) [
        | inl full ↦ let no = rw (e, full) at h in absurd cc
        | inr room ↦
            of_ok (IsAppended region tss) _ (selector, region') (rw (e, room) at h)
              (appended region tss word nonempty (ground (arith, room)))
      ]
    ]
