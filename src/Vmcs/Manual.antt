-- ===== src/Vmcs/Manual.antt =====
-- What the VMCS must hold for the values that src/vmx/vmcs/mod.rs and src/vmx/guest_state.rs prepare, by the
-- field encodings of the manual (appendix B) and the numbers of the MSRs.
use aleph0_virtualization_hy.Base.{
  ℕ, ◌-◌, ◌/◌, ◌%◌, ◌^◌, ◌≡◌, ◌⊎◌, inl, inr, refl, sym, ap, arith, List, [], ◌∷◌, ◌++◌, Option,
  none, some, Bool-cases, bit_and, ◌!=◌,
}
use aleph0_virtualization_hy.Base.Bits.{bit_and_flag}
use aleph0_virtualization_hy.GuestState.{GuestState, state_writes}
use aleph0_virtualization_hy.Segment.{Host, read_gdtr, read_idtr, read_all, segment_base_from_gdt}
use aleph0_virtualization_hy.Vmcs.Access.{Vmcs}
use aleph0_virtualization_hy.Vmcs.Controls.{ChosenControls, control_writes}
use aleph0_virtualization_hy.Vmcs.Fields.Controls.{vm_exit_load_ia32_pat, vm_exit_load_ia32_efer}
use aleph0_virtualization_hy.Vmcs.Distinct.{Holds}
use aleph0_virtualization_hy.Vmcs.HostState.{host_writes, loaded_writes}

-- The host-state area; bits 19 and 21 of the exit controls load PAT and EFER.
abbrev pub HoldsHost : Vmcs → Host → ℕ → Type 0
HoldsHost s host exit_controls =
    Holds s (
      (0xC00, host.es)
      ∷ (0xC02, host.cs)
      ∷ (0xC04, host.ss)
      ∷ (0xC06, host.ds)
      ∷ (0xC08, host.fs)
      ∷ (0xC0A, host.gs)
      ∷ (0xC0C, host.tr)
      ∷ (0x6C00, host.cr0)
      ∷ (0x6C02, host.cr3)
      ∷ (0x6C04, host.cr4)
      ∷ (0x6C06, host.rdmsr 0xC000_0100)
      ∷ (0x6C08, host.rdmsr 0xC000_0101)
      ∷ (0x6C0A, segment_base_from_gdt host (read_gdtr host) host.tr)
      ∷ (0x6C0C, (read_gdtr host).base)
      ∷ (0x6C0E, (read_idtr host).base)
      ∷ (0x4C00, host.rdmsr 0x174 % 2 ^ 32)
      ∷ (0x6C10, host.rdmsr 0x175)
      ∷ (0x6C12, host.rdmsr 0x176)
      ∷ [])
    × ((exit_controls / 2 ^ 19 % 2 ≡ 0) ⊎ (s 0x2C00 ≡ host.rdmsr 0x277))
    × ((exit_controls / 2 ^ 21 % 2 ≡ 0) ⊎ (s 0x2C02 ≡ host.rdmsr 0xC000_0080))

-- The guest-state area, and the two fields that only some entry controls load.
abbrev pub guest_area : GuestState → List (ℕ × ℕ)
guest_area state =
    (0x800, state.es.selector)
    ∷ (0x6806, state.es.base)
    ∷ (0x4800, state.es.limit)
    ∷ (0x4814, state.es.access_rights)
    ∷ (0x802, state.cs.selector)
    ∷ (0x6808, state.cs.base)
    ∷ (0x4802, state.cs.limit)
    ∷ (0x4816, state.cs.access_rights)
    ∷ (0x804, state.ss.selector)
    ∷ (0x680a, state.ss.base)
    ∷ (0x4804, state.ss.limit)
    ∷ (0x4818, state.ss.access_rights)
    ∷ (0x806, state.ds.selector)
    ∷ (0x680c, state.ds.base)
    ∷ (0x4806, state.ds.limit)
    ∷ (0x481a, state.ds.access_rights)
    ∷ (0x808, state.fs.selector)
    ∷ (0x680e, state.fs.base)
    ∷ (0x4808, state.fs.limit)
    ∷ (0x481c, state.fs.access_rights)
    ∷ (0x80a, state.gs.selector)
    ∷ (0x6810, state.gs.base)
    ∷ (0x480a, state.gs.limit)
    ∷ (0x481e, state.gs.access_rights)
    ∷ (0x80c, state.ldtr.selector)
    ∷ (0x6812, state.ldtr.base)
    ∷ (0x480c, state.ldtr.limit)
    ∷ (0x4820, state.ldtr.access_rights)
    ∷ (0x80e, state.tr.selector)
    ∷ (0x6814, state.tr.base)
    ∷ (0x480e, state.tr.limit)
    ∷ (0x4822, state.tr.access_rights)
    ∷ (0x681E, state.rip)
    ∷ (0x681C, state.rsp)
    ∷ (0x6820, state.rflags)
    ∷ (0x6800, state.cr0)
    ∷ (0x6802, state.cr3)
    ∷ (0x6804, state.cr4)
    ∷ (0x6816, state.gdtr.base)
    ∷ (0x4810, state.gdtr.limit)
    ∷ (0x6818, state.idtr.base)
    ∷ (0x4812, state.idtr.limit)
    ∷ (0x482A, state.sysenter_cs)
    ∷ (0x6824, state.sysenter_esp)
    ∷ (0x6826, state.sysenter_eip)
    ∷ (0x681A, 0x400)
    ∷ (0x2802, 0)
    ∷ (0x2800, 2 ^ 64 - 1)
    ∷ (0x4826, 0)
    ∷ (0x4824, 0)
    ∷ (0x6822, 0)
    ∷ []

abbrev pub HoldsGuest : Vmcs → GuestState → Type 0
HoldsGuest s state =
    Holds s (guest_area state)
    × ((state.pat ≡ none) ⊎ (state.pat ≡ some (s 0x2804)))
    × ((state.efer ≡ none) ⊎ (state.efer ≡ some (s 0x2806)))

-- The control fields that are the same whatever is chosen: no counts, no event to inject, no filter on page
-- faults, and every exception exits.
abbrev pub HoldsPlain : Vmcs → Type 0
HoldsPlain s = Holds s (
    (0x400A, 0)
    ∷ (0x400E, 0)
    ∷ (0x4010, 0)
    ∷ (0x4014, 0)
    ∷ (0x4016, 0)
    ∷ (0x4006, 0)
    ∷ (0x4008, 0)
    ∷ (0x4004, 2 ^ 32 - 1)
    ∷ [])

-- The control fields.
abbrev pub HoldsControls : Vmcs → ChosenControls → Type 0
HoldsControls s chosen =
    Holds s (
      (0x4000, chosen.pin)
      ∷ (0x4002, chosen.primary)
      ∷ (0x400C, chosen.exit)
      ∷ (0x4012, chosen.entry)
      ∷ [])
    × ((chosen.secondary ≡ none) ⊎ (chosen.secondary ≡ some (s 0x401E)))
    × HoldsPlain s

pub Holds-append : (s : Vmcs) (xs ys : List (ℕ × ℕ)) → Holds s (xs ++ ys) → Holds s xs × Holds s ys
Holds-append s [] ys h = (tt, h)
Holds-append s (x ∷ xs) ys (first, h) =
    let (left, right) = Holds-append s xs ys h in ((first, left), right)

pub HoldsHost-of :
    (s : Vmcs) (host : Host) (exit_controls : ℕ)
    → Holds s (host_writes host (read_all host) ++ loaded_writes host exit_controls)
    → HoldsHost s host exit_controls
unfolding read_all
HoldsHost-of s host exit_controls h =
    let (fixed, loaded) = Holds-append s (host_writes host (read_all host)) _ h in
    let pat_bit = bit_and_flag 19 exit_controls in
    let efer_bit = bit_and_flag 21 exit_controls in
    elim (Bool-cases (bit_and exit_controls vm_exit_load_ia32_pat != 0)) [
      | inl pat ↦ elim (Bool-cases (bit_and exit_controls vm_exit_load_ia32_efer != 0)) [
        | inl efer ↦ let it = rw (pat, efer) at loaded in (fixed, inr it.0, inr it.1.0)
        | inr efer ↦
            let it = rw (pat, efer) at loaded in
            (fixed, inr it.0, inl (ground (arith, efer_bit, efer)))
      ]
      | inr pat ↦ elim (Bool-cases (bit_and exit_controls vm_exit_load_ia32_efer != 0)) [
        | inl efer ↦
            let it = rw (pat, efer) at loaded in
            (fixed, inl (ground (arith, pat_bit, pat)), inr it.0)
        | inr efer ↦
            (fixed, inl (ground (arith, pat_bit, pat)), inl (ground (arith, efer_bit, efer)))
      ]
    ]

pub HoldsGuest-of :
    (s : Vmcs) (state : GuestState) (pat efer : Option ℕ)
    → Holds s (state_writes (record state { pat = pat; efer = efer }))
    → HoldsGuest s (record state { pat = pat; efer = efer })
HoldsGuest-of s state none none h =
    let (fixed, rest) = Holds-append s (guest_area state) [] h in (fixed, inl refl, inl refl)
HoldsGuest-of s state (some p) none h =
    let (fixed, (pat, rest)) = Holds-append s (guest_area state) ((0x2804, p) ∷ []) h in
    (fixed, inr (ap some (sym pat)), inl refl)
HoldsGuest-of s state none (some e) h =
    let (fixed, (efer, rest)) = Holds-append s (guest_area state) ((0x2806, e) ∷ []) h in
    (fixed, inl refl, inr (ap some (sym efer)))
HoldsGuest-of s state (some p) (some e) h =
    let (fixed, (pat, (efer, rest))) =
      Holds-append s (guest_area state) ((0x2804, p) ∷ (0x2806, e) ∷ []) h in
    (fixed, inr (ap some (sym pat)), inr (ap some (sym efer)))

pub HoldsControls-of :
    (s : Vmcs) (pin primary exit entry : ℕ) (secondary : Option ℕ)
    → let chosen : ChosenControls = record {
      pin = pin;
      primary = primary;
      secondary = secondary;
      exit = exit;
      entry = entry;
    } in
      Holds s (control_writes chosen) → HoldsControls s chosen
HoldsControls-of s pin primary exit entry none (a, (b, (c, (d, rest)))) =
    ((a, (b, (c, (d, tt)))), inl refl, rest)
HoldsControls-of s pin primary exit entry (some v) (a, (b, (c, (d, (e, rest))))) =
    ((a, (b, (c, (d, tt)))), inr (ap some (sym e)), rest)
