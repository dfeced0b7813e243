-- ===== src/Examples/Tables.antt =====
-- The host's GDT copied, given a TSS and activated.
use aleph0_virtualization_hy.Base.{
  ℕ, ◌-◌, ◌*◌, ◌≡◌, refl, ◌++◌, arith, ltb, none, some, u8, shr, to_le_bytes, if◌then◌else◌, ok,
}
use aleph0_virtualization_hy.Segment
use aleph0_virtualization_hy.Segment.{DescriptorTable, Host}
use aleph0_virtualization_hy.HostTables.{
  TssRegion, GdtRegion, write_bytes, tss_descriptor, append_tss_descriptor, descriptor_holds,
  verify_tss_descriptor, prepared_gdtr, needs_ist, check_active, check_loaded, activate,
}
use aleph0_virtualization_hy.HostTables.Installed.{IsAppended, append_tss_descriptor-verify}
use aleph0_virtualization_hy.HostTables.Active.{IsActive, activate-IsActive}
use aleph0_virtualization_hy.Examples.HostSide.{host}

abbrev copied : GdtRegion
copied = record {
  page = 0xB000;
  bytes = λ i.
      if ltb i 8 then 0 else if ltb i 16 then u8 (shr 0x00AF_9A00_0000_FFFF (8 * (i - 8))) else 0;
  original_length = 0x18;
  tss_selector = none;
}

abbrev tss : TssRegion
tss = record { base = 0x5000 }

abbrev with_tss : GdtRegion
with_tss = record copied {
  bytes = write_bytes copied.bytes 0x18 (tss_descriptor 0x5000 0x67);
  tss_selector = some 0x18;
}

appends : append_tss_descriptor copied tss ≡ ok (0x18, with_tss)
unfolding append_tss_descriptor
appends = refl

append_tss_descriptor-verify_example : IsAppended copied tss (0x18, with_tss)
append_tss_descriptor-verify_example =
    append_tss_descriptor-verify copied with_tss tss 0x18 (omega arith) (omega arith) appends

abbrev before : Host
before = record host { sidt = to_le_bytes 2 47 ++ to_le_bytes 8 0x2000 }

abbrev load : DescriptorTable → ℕ → Host
load gdtr selector = record before {
  sgdt = to_le_bytes 2 gdtr.limit ++ to_le_bytes 8 gdtr.base;
  tr = selector;
  memory = λ address.
      if ltb address 0xB000
      then 0
      else if ltb address 0xC000
      then with_tss.bytes (address - 0xB000)
      else 0;
}

activates : activate before load with_tss tss ≡ ok tt
unfolding activate verify_tss_descriptor descriptor_holds tss_descriptor prepared_gdtr needs_ist
    check_active check_loaded Segment.from_operand Segment.descriptor_offset
    Segment.segment_base_from_gdt Segment.system_descriptor_base Segment.base Segment.limit
activates = refl

activate-IsActive_example :
    (selector : ℕ) × (gdtr : DescriptorTable) × (with_tss.tss_selector ≡ some selector)
    × IsActive before (load gdtr selector) with_tss tss selector
activate-IsActive_example = activate-IsActive before load with_tss tss (omega arith) activates
