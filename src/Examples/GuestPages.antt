-- ===== src/Examples/GuestPages.antt =====
-- The pages of one guest, under tables that map each page to itself.
use aleph0_virtualization_hy.Base.{ℕ, ◌≡◌, refl, true, false, Option, some, Result, ok}
use aleph0_virtualization_hy.Paging.{Mapping, WalkError, size_2m, walk_current}
use aleph0_virtualization_hy.GuestMemory.{
  GuestMemory, GuestMappings, data_page, check_identity, check_permissions, check_idt_permissions,
  check_data_permissions, check_all, check_mappings,
}
use aleph0_virtualization_hy.GuestMemory.Mapped.{
  AreUsable, Returns, check_mappings-AreUsable, check_mappings-Returns,
}

abbrev itself : ℕ → Mapping
itself address = record {
  physical = address;
  size = size_2m;
  writable = true;
  user = false;
  execute_disable = false;
}

abbrev walked : ℕ → Option (Result Mapping WalkError)
walked address = some (ok (itself address))

abbrev pages : GuestMemory
pages = record { code = 0x7000; stack = 0x9000; idt = 0xA000 }

abbrev mapped : GuestMappings
mapped = record {
  code = itself 0x7000;
  stack = itself 0x9000;
  idt = itself 0xA000;
  data_page = itself 0x8000;
}

maps_pages : check_mappings walked 0x30_0668 pages ≡ some (ok mapped)
unfolding check_mappings check_all check_identity check_permissions check_idt_permissions
    check_data_permissions
maps_pages = refl

check_mappings-AreUsable_example :
    (walked 0x7000 ≡ some (ok mapped.code))
    × (walked 0x9000 ≡ some (ok mapped.stack))
    × (walked 0xA000 ≡ some (ok mapped.idt))
    × (walked (data_page pages) ≡ some (ok mapped.data_page))
    × AreUsable 0x30_0668 pages mapped
check_mappings-AreUsable_example = check_mappings-AreUsable walked 0x30_0668 pages mapped maps_pages

check_mappings-Returns_example :
    Returns (check_mappings (walk_current (λ address. 0) 0x668 0x3000) 0x668 pages)
check_mappings-Returns_example = check_mappings-Returns (λ address. 0) 0x3000 0x668 pages
