-- ===== src/HostTables/Active.antt =====
-- What `activate` of src/vmx/host_tables.rs has checked when it succeeds.
use aleph0_virtualization_hy.Base.{
  ℕ, zero, suc, ◌+◌, ◌-◌, ◌*◌, ◌/◌, ◌%◌, ◌^◌, ◌<◌, ◌≡◌, ◌⊎◌, inl, inr, refl, sym, ap, ◌∙◌, subst,
  Bool, true, false, not, ◌&&◌, ◌||◌, arith, Option, none, some, Bool-cases, ◌==◌, ◌!=◌, bit_and,
  u16, not16, if◌then◌else◌, Result, ok, err,
}
use aleph0_virtualization_hy.Base.Bits.{bit_and_low, bit_and_flag}
use aleph0_virtualization_hy.Segment.{
  DescriptorTable, Host, selector_rpl, descriptor_offset, read_gdtr, read_idtr,
  segment_base_from_gdt,
}
use aleph0_virtualization_hy.Segment.Layout.{IsInside, descriptor_offset_lem}
use aleph0_virtualization_hy.HostTables.{
  TssRegion, GdtError, GdtRegion, gate_present, gate_ist_mask, verify_tss_descriptor, prepared_gdtr,
  needs_ist, is_none, differs, check_active, check_loaded, ◌>>=◌, ok_or, activate,
  tss_verification_failed, gdtr_preparation_failed, invalid_idt, idt_requires_ist,
  activation_verification_failed,
}

bind-inv :
    {A B : Type 0} (r : Result A GdtError) (f : A → Result B GdtError) (b : B)
    → (r >>= f) ≡ ok b
    → (a : A) × (r ≡ ok a) × (f a ≡ ok b)
bind-inv (ok a) f b h = (a, refl, h)
bind-inv (err e) f b h = absurd cc

unless-inv :
    (b : Bool) (e : GdtError) (rest : Result (Unit {0}) GdtError) {u : Unit {0}}
    → (if b then err e else rest) ≡ ok u
    → (b ≡ false) × (rest ≡ ok u)
unless-inv true e rest h = absurd cc
unless-inv false e rest h = (refl, h)

ok_or-inv : {A : Type 0} (e : GdtError) (o : Option A) (a : A) → ok_or e o ≡ ok a → o ≡ some a
ok_or-inv e (some x) a h = cc
ok_or-inv e none a h = absurd cc

-- A gate that is not present, or needs no IST stack.
abbrev pub IsPlain : (ℕ → ℕ) → ℕ → Type 0
IsPlain memory gate = (memory (gate + 5) / 2 ^ 7 % 2 ≡ 0) ⊎ (memory (gate + 4) % 2 ^ 3 ≡ 0)

gate-IsPlain :
    (memory : ℕ → ℕ) (gate : ℕ)
    → ((bit_and (memory (gate + 5)) gate_present != 0)
        && (bit_and (memory (gate + 4)) gate_ist_mask != 0))
      ≡ false
    → IsPlain memory gate
gate-IsPlain memory gate h =
    let here = bit_and_flag 7 (memory (gate + 5)) in
    let stack = bit_and_low 3 (memory (gate + 4)) in
    elim (Bool-cases (bit_and (memory (gate + 5)) gate_present != 0)) [
      | inl present ↦ inr (ground (arith, stack, present, h))
      | inr absent ↦ inl (ground (arith, here, absent))
    ]

needs_ist-IsPlain :
    (memory : ℕ → ℕ) (gates gate k : ℕ)
    → needs_ist memory gate gates ≡ false
    → k < gates
    → IsPlain memory (gate + k * 16)
unfolding needs_ist
needs_ist-IsPlain memory (suc gates) gate zero h inside =
    subst (IsPlain memory) (omega arith) (gate-IsPlain memory gate (ground arith))
needs_ist-IsPlain memory (suc gates) gate (suc k) h inside =
    subst (IsPlain memory) (omega arith)
      (needs_ist-IsPlain memory gates (gate + 16) k (ground arith) (omega arith))
needs_ist-IsPlain memory zero gate k h inside = absurd (omega arith)

some_offset : (o : Option ℕ) → is_none o ≡ false → (x : ℕ) × (o ≡ some x)
some_offset (some x) h = (x, refl)
some_offset none h = absurd cc

-- What the CPU holds when the host runs on the new tables.
pub record IsActive (host loaded : Host) (region : GdtRegion) (tss : TssRegion) (selector : ℕ)
    : Type 0 where
  pub verified : verify_tss_descriptor region tss ≡ true
  pub gdt_base : (read_gdtr loaded).base ≡ region.page
  pub gdt_limit : (read_gdtr loaded).limit ≡ selector + 16 - 1
  pub tr : loaded.tr ≡ selector
  pub tss_base : segment_base_from_gdt loaded (read_gdtr loaded) loaded.tr ≡ tss.base
  pub cs :
      (offset : ℕ) × IsInside
        (record { base = region.page; limit = u16 (region.original_length - 1) })
        host.cs
        8
        offset
  pub whole_gates : ((read_idtr host).limit + 1) % 16 ≡ 0
  pub gates :
      (k : ℕ)
      → k < ((read_idtr host).limit + 1) / 16
      → IsPlain host.memory ((read_idtr host).base + k * 16)

prepared_gdtr-inv :
    (region : GdtRegion) (gdtr : DescriptorTable) (selector : ℕ)
    → prepared_gdtr region ≡ some gdtr
    → region.tss_selector ≡ some selector
    → (gdtr.base ≡ region.page) × (gdtr.limit ≡ selector + 16 - 1)
unfolding prepared_gdtr
prepared_gdtr-inv region gdtr selector h e =
    let same : some (record { base = region.page; limit = selector + 16 - 1 }) ≡ some gdtr =
      rw e at h in
    let one : record { base = region.page; limit = selector + 16 - 1 } ≡ gdtr = cc in
    (
      ap (λ (t : DescriptorTable). t.base) (sym one),
      ap (λ (t : DescriptorTable). t.limit) (sym one),
    )

check_active-inv :
    (host : Host) (region : GdtRegion) {u : Unit {0}}
    → host.cs < 2 ^ 16
    → check_active host region ≡ ok u
    → ((offset : ℕ) × IsInside
          (record { base = region.page; limit = u16 (region.original_length - 1) })
          host.cs
          8
          offset)
      × (((read_idtr host).limit + 1) % 16 ≡ 0)
      × (needs_ist host.memory (read_idtr host).base (((read_idtr host).limit + 1) / 16) ≡ false)
unfolding check_active
check_active-inv host region small h =
    let copied : DescriptorTable = record {
      base = region.page;
      limit = u16 (region.original_length - 1);
    } in
    let lost = is_none (descriptor_offset copied host.cs 8) in
    let no_stack = not (
      (bit_and host.ss (not16 selector_rpl) == 0)
      || not (is_none (descriptor_offset copied host.ss 8))) in
    let idtr = read_idtr host in
    let broken = (idtr.base == 0) || ((idtr.limit + 1) % 16 != 0) in
    let stacks = needs_ist host.memory idtr.base ((idtr.limit + 1) / 16) in
    let from_gates : Result (Unit {0}) GdtError = if stacks then err idt_requires_ist else ok tt in
    let from_idt : Result (Unit {0}) GdtError = if broken then err invalid_idt else from_gates in
    let (segments, h1) = unless-inv (lost || no_stack) gdtr_preparation_failed from_idt h in
    let (whole, h2) = unless-inv broken invalid_idt from_gates h1 in
    let (plain, h3) = unless-inv stacks idt_requires_ist (ok tt) h2 in
    let (offset, found) = some_offset (descriptor_offset copied host.cs 8) (ground arith) in
    ((offset, (descriptor_offset_lem copied host.cs 8 offset small).0 found), ground arith, plain)

check_loaded-inv :
    (loaded : Host) (gdtr : DescriptorTable) (selector : ℕ) (tss : TssRegion) {u : Unit {0}}
    → check_loaded loaded gdtr selector tss ≡ ok u
    → ((read_gdtr loaded).base ≡ gdtr.base)
      × ((read_gdtr loaded).limit ≡ gdtr.limit)
      × (loaded.tr ≡ selector)
      × (segment_base_from_gdt loaded (read_gdtr loaded) loaded.tr ≡ tss.base)
unfolding check_loaded
check_loaded-inv loaded gdtr selector tss h =
    let now = read_gdtr loaded in
    let other = differs now gdtr || (loaded.tr != selector) in
    let moved = segment_base_from_gdt loaded now loaded.tr != tss.base in
    let from_base : Result (Unit {0}) GdtError =
      if moved then err activation_verification_failed else ok tt in
    let (tables, h1) = unless-inv other activation_verification_failed from_base h in
    let (based, h2) = unless-inv moved activation_verification_failed (ok tt) h1 in
    (ground arith, ground arith, ground arith, ground arith)

-- When `activate` succeeds, the host runs on the new tables with the selector of the TSS descriptor,
-- which was verified: GDTR and TR are the prepared ones, TR has the base of the TSS, the CS in use has
-- its descriptor in the copied part of the GDT, and no present gate of the IDT needs an IST stack.
pub activate-IsActive :
    (host : Host) (load : DescriptorTable → ℕ → Host) (region : GdtRegion) (tss : TssRegion)
    → host.cs < 2 ^ 16
    → activate host load region tss ≡ ok tt
    → (selector : ℕ) × (gdtr : DescriptorTable) × (region.tss_selector ≡ some selector)
      × IsActive host (load gdtr selector) region tss selector
unfolding activate
activate-IsActive host load region tss small h =
    let (v, e1, h1) =
      bind-inv
        (if not (verify_tss_descriptor region tss) then err tss_verification_failed else ok tt) _ tt
        h in
    let (gdtr, e2, h2) = bind-inv (ok_or gdtr_preparation_failed (prepared_gdtr region)) _ tt h1 in
    let (c, e3, h3) = bind-inv (check_active host region) _ tt h2 in
    let (selector, e4, h4) = bind-inv (ok_or gdtr_preparation_failed region.tss_selector) _ tt h3 in
    let named = ok_or-inv _ _ selector e4 in
    let (page, limit) = prepared_gdtr-inv region gdtr selector (ok_or-inv _ _ gdtr e2) named in
    let (inside, whole, plain) = check_active-inv host region small e3 in
    let (base_is, limit_is, tr_is, tss_is) =
      check_loaded-inv (load gdtr selector) gdtr selector tss h4 in
    let (verified, rest) = unless-inv (not (verify_tss_descriptor region tss)) _ _ e1 in
    (
      selector,
      gdtr,
      named,
      record {
        verified = ground arith;
        gdt_base = base_is ∙ page;
        gdt_limit = limit_is ∙ limit;
        tr = tr_is;
        tss_base = tss_is;
        cs = inside;
        whole_gates = whole;
        gates = λ k within. needs_ist-IsPlain host.memory _ _ k plain within;
      },
    )
