-- ===== src/HostTables.antt =====
-- src/vmx/host_tables.rs: the host's own GDT and TSS. A page of the GDT is its bytes; the addresses that
-- the allocator gives, and what the CPU holds after LGDT and LTR, are parameters.
pub mod Installed
pub mod Active
use aleph0_virtualization_hy.Base.{
  ℕ, zero, suc, ◌+◌, ◌-◌, ◌*◌, ◌/◌, ◌%◌, ◌^◌, Bool, true, false, not, ◌&&◌, ◌||◌, Option, none,
  some, List, [], ◌∷◌, ◌++◌, ltb, ◌==◌, ◌!=◌, bit_and, not16, not64, u8, u16, u32, shr, take, drop,
  to_le_bytes, from_le_bytes, read_bytes, if◌then◌else◌, Result, ok, err,
}
use aleph0_virtualization_hy.Ept.Entry.{page_size}
use aleph0_virtualization_hy.Segment
use aleph0_virtualization_hy.Segment.{
  DescriptorTable, Host, selector_rpl, selector_rpl_ti, descriptor_offset, read_gdtr, read_idtr,
  system_descriptor_base, segment_base_from_gdt,
}

-- `size_of::<Tss>()`.
abbrev pub tss_size : ℕ
tss_size = 0x68

-- The TSS by its address.
pub record TssRegion : Type 0 where
  pub base : ℕ

pub data GdtError : Type 0 where
  allocation_failed too_large invalid_source already_installed tss_verification_failed : GdtError
  gdtr_preparation_failed invalid_idt idt_requires_ist activation_verification_failed : GdtError

abbrev pub tss_available_present : ℕ
tss_available_present = 0x89

abbrev pub system_descriptor_size : ℕ
system_descriptor_size = 16

abbrev pub gate_present : ℕ
gate_present = 0x80

abbrev pub gate_ist_mask : ℕ
gate_ist_mask = 0x07

-- The 16 bytes, in order.
unfoldable pub tss_descriptor : ℕ → ℕ → List ℕ
tss_descriptor base limit =
    to_le_bytes 2 (u16 limit)
    ++ (to_le_bytes 2 (u16 base)
        ++ ((u8 (shr base 16)
              ∷ tss_available_present
              ∷ bit_and (shr limit 16) 0x0F
              ∷ u8 (shr base 24)
              ∷ [])
            ++ (to_le_bytes 4 (u32 (shr base 32)) ++ (0 ∷ 0 ∷ 0 ∷ 0 ∷ []))))

-- The page's address and its bytes, by offset.
pub record GdtRegion : Type 0 where
  pub page : ℕ
  pub bytes : ℕ → ℕ
  pub original_length : ℕ
  pub tss_selector : Option ℕ

-- `expect`s that the firmware has freed the page; none is a panic.
abbrev pub refuse : Bool → GdtError → Option (Result GdtRegion GdtError)
refuse true e = some (err e)
refuse false e = none

-- `allocated` is the page that the firmware gives, zeroed, and `frees` whether `boot::free_pages` succeeds.
unfoldable pub copy_active : Host → Option ℕ → Bool → Option (Result GdtRegion GdtError)
copy_active host allocated frees = elim allocated [
  | none ↦ some (err allocation_failed)
  | some page ↦
      let table = read_gdtr host in
      let original_length = table.limit + 1 in
      let offset = bit_and (original_length + 7) (not64 7) in
      if ltb page_size (offset + system_descriptor_size)
      then refuse frees too_large
      else if table.base == 0
      then refuse frees invalid_source
      else some (
          ok (record {
            page = page;
            bytes = λ i. if ltb i original_length then host.memory (table.base + i) else 0;
            original_length = original_length;
            tss_selector = none;
          }))
]

unfoldable pub prepared_gdtr : GdtRegion → Option DescriptorTable
prepared_gdtr region = elim region.tss_selector [
  | none ↦ none
  | some selector ↦
      some (record { base = region.page; limit = selector + system_descriptor_size - 1 })
]

-- Bytes written over a page from an offset on.
abbrev pub write_bytes : (ℕ → ℕ) → ℕ → List ℕ → ℕ → ℕ
write_bytes bytes offset [] i = bytes i
write_bytes bytes offset (b ∷ bs) i = if i == offset then b else write_bytes bytes (offset + 1) bs i

-- The selector, and the region with its descriptor.
unfoldable pub append_tss_descriptor : GdtRegion → TssRegion → Result (ℕ × GdtRegion) GdtError
append_tss_descriptor region tss_region = elim region.tss_selector [
  | some selector ↦ err already_installed
  | none ↦
      let offset = (region.original_length + 7) / 8 * 8 in
      if ltb page_size (offset + system_descriptor_size)
      then err too_large
      else (let selector = u16 offset in
          ok (
            selector,
            record region {
              bytes =
                  write_bytes region.bytes offset (tss_descriptor tss_region.base (tss_size - 1));
              tss_selector = some selector;
            },
          ))
]

-- The comparisons on the 16 bytes.
unfoldable pub descriptor_holds : List ℕ → TssRegion → Bool
descriptor_holds descriptor tss_region =
    let low = from_le_bytes (take 8 descriptor) in
    (Segment.limit low == tss_size - 1)
    && ((system_descriptor_base descriptor == tss_region.base)
        && ((from_le_bytes (take 1 (drop 5 descriptor)) == tss_available_present)
            && ((bit_and (from_le_bytes (take 1 (drop 6 descriptor))) 0xF0 == 0)
                && (from_le_bytes (drop 12 descriptor) == 0))))

unfoldable pub verify_tss_descriptor : GdtRegion → TssRegion → Bool
verify_tss_descriptor region tss_region = elim region.tss_selector [
  | none ↦ false
  | some selector ↦
      if (selector == 0)
        || ((bit_and selector selector_rpl_ti != 0)
            || ltb page_size (selector + system_descriptor_size))
      then false
      else descriptor_holds (read_bytes region.bytes selector system_descriptor_size) tss_region
]

-- The gates from an address on: is one present that needs an IST stack?
unfoldable pub needs_ist : (ℕ → ℕ) → ℕ → ℕ → Bool
needs_ist memory gate zero = false
needs_ist memory gate (suc gates) =
    let ist = memory (gate + 4) in
    let attributes = memory (gate + 5) in
    ((bit_and attributes gate_present != 0) && (bit_and ist gate_ist_mask != 0))
    || needs_ist memory (gate + system_descriptor_size) gates

abbrev pub is_none : Option ℕ → Bool
is_none none = true
is_none (some x) = false

-- `gdtr != table`.
abbrev pub differs : DescriptorTable → DescriptorTable → Bool
differs a b = (a.base != b.base) || (a.limit != b.limit)

-- The checks of `activate` on what the CPU holds before, with the GDTR to load.
unfoldable pub check_active : Host → GdtRegion → Result (Unit {0}) GdtError
check_active host region =
    let copied : DescriptorTable = record {
      base = region.page;
      limit = u16 (region.original_length - 1);
    } in
    let ss_is_null = bit_and host.ss (not16 selector_rpl) == 0 in
    let idtr = read_idtr host in
    let idt_length = idtr.limit + 1 in
    if is_none (descriptor_offset copied host.cs 8)
      || not (ss_is_null || not (is_none (descriptor_offset copied host.ss 8)))
    then err gdtr_preparation_failed
    else if (idtr.base == 0) || (idt_length % system_descriptor_size != 0)
    then err invalid_idt
    else if needs_ist host.memory idtr.base (idt_length / system_descriptor_size)
    then err idt_requires_ist
    else ok tt

-- The checks of `activate` on what the CPU holds after LGDT and LTR.
unfoldable pub check_loaded : Host → DescriptorTable → ℕ → TssRegion → Result (Unit {0}) GdtError
check_loaded loaded gdtr selector tss_region =
    let loaded_gdtr = read_gdtr loaded in
    if differs loaded_gdtr gdtr || (loaded.tr != selector)
    then err activation_verification_failed
    else if segment_base_from_gdt loaded loaded_gdtr loaded.tr != tss_region.base
    then err activation_verification_failed
    else ok tt

infixl 5 ◌>>=◌
abbrev pub ◌>>=◌ : {A B : Type 0} → Result A GdtError → (A → Result B GdtError) → Result B GdtError
ok a >>= f = f a
err e >>= f = err e

-- `ok_or`.
abbrev pub ok_or : {A : Type 0} → GdtError → Option A → Result A GdtError
ok_or e none = err e
ok_or e (some a) = ok a

-- `load` is what the CPU holds after LGDT and LTR.
unfoldable pub activate :
    Host → (DescriptorTable → ℕ → Host) → GdtRegion → TssRegion → Result (Unit {0}) GdtError
activate host load region tss_region = do
  verified ←
      if not (verify_tss_descriptor region tss_region) then err tss_verification_failed else ok tt
  gdtr ← ok_or gdtr_preparation_failed (prepared_gdtr region)
  checked ← check_active host region
  selector ← ok_or gdtr_preparation_failed region.tss_selector
  check_loaded (load gdtr selector) gdtr selector tss_region
