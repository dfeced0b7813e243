-- ===== src/BringUp/Tables.antt =====
-- The host's tables in src/bring_up/mod.rs: `activate_host_tables`, and the check before the launch that
-- nothing has changed them.
use aleph0_virtualization_hy.Base.{
  ℕ, ◌+◌, ◌-◌, ◌&&◌, Bool, true, false, not, Option, none, some, ltb, leb, ◌==◌, if◌then◌else◌,
  Result, ok, err,
}
use aleph0_virtualization_hy.Ept.Entry.{page_size}
use aleph0_virtualization_hy.HostTables.{
  TssRegion, GdtRegion, GdtError, allocation_failed, tss_verification_failed,
  gdtr_preparation_failed, activation_verification_failed, copy_active, append_tss_descriptor,
  verify_tss_descriptor, prepared_gdtr, activate, differs,
}
use aleph0_virtualization_hy.Segment.{
  DescriptorTable, Host, read_gdtr, read_idtr, segment_base_from_gdt,
}
use aleph0_virtualization_hy.BringUp.Error.{gdt, host_tables_changed}
use aleph0_virtualization_hy.BringUp.Step.{Step, outcome, outcome_or_panic, pure, fail, ◌>>=◌, ◌>>◌}
use aleph0_virtualization_hy.BringUp.Machine.{
  Machine, Environment, load_gdtr, allocate_zeroed_pages, gdt_page,
}
use aleph0_virtualization_hy.BringUp.Allocation.{get, allocate_tss}

pub record HostTables : Type 0 where
  pub gdtr : DescriptorTable
  pub tr : ℕ
  pub tss_base : ℕ
  pub idtr : DescriptorTable
  pub firmware_gdtr : DescriptorTable

-- The region's page in memory.
abbrev pub with_page : GdtRegion → (ℕ → ℕ) → ℕ → ℕ
with_page region memory at =
    if leb region.page at && ltb at (region.page + page_size)
    then region.bytes (at - region.page)
    else memory at

-- A `prepared_gdtr` that describes the region up to the selector's descriptor.
abbrev pub matching : GdtRegion → ℕ → Option DescriptorTable → Result DescriptorTable GdtError
matching region selector none = err gdtr_preparation_failed
matching region selector (some prepared) =
    if (prepared.base == region.page) && (prepared.limit == selector + 15)
    then ok prepared
    else err gdtr_preparation_failed

-- Only this error comes after LGDT and LTR.
abbrev pub has_loaded : Result (Unit {0}) GdtError → Bool
has_loaded (ok done) = true
has_loaded (err activation_verification_failed) = true
has_loaded (err e) = false

pub record PreparedTables : Type 0 where
  pub region : GdtRegion
  pub selector : ℕ
  pub prepared : DescriptorTable

infixl 5 ◌then◌
abbrev pub ◌then◌ : {A B : Type 0} → Result A GdtError → (A → Result B GdtError) → Result B GdtError
(ok a) then f = f a
(err e) then f = err e

-- From the copy of the GDT to the GDTR to load.
abbrev pub prepare_copy : TssRegion → GdtRegion → Result PreparedTables GdtError
prepare_copy tss copied = append_tss_descriptor copied tss then λ added.
    (if verify_tss_descriptor added.1 tss then ok tt else err tss_verification_failed)
    then λ verified. matching added.1 added.0 (prepared_gdtr added.1) then λ prepared.
        ok (record { region = added.1; selector = added.0; prepared = prepared })

abbrev pub prepare_copied :
    TssRegion → Option (Result GdtRegion GdtError) → Option (Result PreparedTables GdtError)
prepare_copied tss none = none
prepare_copied tss (some copied) = some (copied then prepare_copy tss)

-- `allocated` is the zeroed page; none is a panic.
unfoldable pub prepare_tables :
    Host → TssRegion → ℕ → Bool → Option (Result PreparedTables GdtError)
prepare_tables host tss allocated frees =
    prepare_copied tss (copy_active host (some allocated) frees)

module _ (env : Environment) where
  -- The CPU after LGDT and LTR.
  unfoldable pub load_tables : GdtRegion → Host → DescriptorTable → ℕ → Host
  load_tables region host gdtr selector =
      let loaded = load_gdtr gdtr host in
      record loaded {
        tr = selector;
        memory = env.ltr_memory (with_page region host.memory) (gdtr.base + selector);
      }

  -- `gdt.activate(&tss)?`, with the GDTR and the selector that it loads.
  unfoldable pub activate_tables :
      GdtRegion → TssRegion → DescriptorTable → ℕ → Step Machine (Unit {0})
  activate_tables region tss gdtr selector m =
      let result = activate m.host (load_tables region m.host) region tss in
      (
        outcome gdt result,
        record m {
          host = if has_loaded result then load_tables region m.host gdtr selector else m.host;
        },
      )

  unfoldable pub activate_host_tables : Step Machine HostTables
  activate_host_tables = do
    start ← get
    tss ← allocate_tss env
    page ← allocate_zeroed_pages env gdt_page 1 (gdt allocation_failed)
    ready ← (λ m. (outcome_or_panic gdt (prepare_tables m.host tss page env.frees), m))
    activate_tables ready.region tss ready.prepared ready.selector
    now ← get
    pure (record {
      gdtr = ready.prepared;
      tr = ready.selector;
      tss_base = tss.base;
      idtr = read_idtr now.host;
      firmware_gdtr = read_gdtr start.host;
    })

-- The comparisons of `check_host_tables_preserved`.
unfoldable pub are_preserved : Host → HostTables → Bool
are_preserved host expected =
    let gdtr = read_gdtr host in
    let same_gdtr = not (differs gdtr expected.gdtr) in
    let same_idtr = not (differs (read_idtr host) expected.idtr) in
    let same_tss_base =
      same_gdtr
      && ((host.tr == expected.tr)
          && (segment_base_from_gdt host gdtr host.tr == expected.tss_base)) in
    same_gdtr && (same_idtr && same_tss_base)

unfoldable pub check_host_tables_preserved : HostTables → Step Machine (Unit {0})
check_host_tables_preserved expected m =
    if are_preserved m.host expected then pure tt m else fail host_tables_changed m
