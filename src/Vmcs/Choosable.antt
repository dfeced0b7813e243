-- ===== src/Vmcs/Choosable.antt =====
-- When `configure_controls` of src/vmx/vmcs/mod.rs succeeds.
use aleph0_virtualization_hy.Base.{
  ℕ, ◌/◌, ◌%◌, ◌^◌, ◌<◌, ◌≡◌, ◌⊎◌, inl, inr, refl, sym, ap, ◌∙◌, Bool, true, false, arith, All,
  Option, none, some, Option-cases, bit_or, ◌!=◌, Bool-cases, Result-cases, Result, ok, err,
}
use aleph0_virtualization_hy.Base.Bits.{bit_and_flag}
use aleph0_virtualization_hy.Msr.Controls.{allows, allowed, choose, choose-u32}
use aleph0_virtualization_hy.Msr.Legal.{IsLegal, choose-IsChosen, choose_fails}
use aleph0_virtualization_hy.Vmcs.{
  VmcsError, nmi_window_exiting_unsupported, unsupported_control_value,
}
use aleph0_virtualization_hy.Vmcs.Fields.Controls.{cpu_based_nmi_window_exiting}
use aleph0_virtualization_hy.Vmcs.Access.{Vmcs, Cpu}
use aleph0_virtualization_hy.Vmcs.Writes.{field_limit, IsWorking, write_all-works}
use aleph0_virtualization_hy.Vmcs.Controls.{
  DesiredControls, VmcsControlMsrs, ChosenControls, ◌>>=◌, or_unsupported, optional, require,
  choose_controls, control_writes, configure_controls,
}
use aleph0_virtualization_hy.Vmcs.Configured.{
  AreChosen, choose_controls-AreChosen, secondary_chosen, wanted_primary, wanted_primary_lem,
  IsChosen-primary,
}

control_writes-fit :
    (pin primary exit entry : ℕ) (secondary : Option ℕ)
    → pin < 2 ^ 32
    → primary < 2 ^ 32
    → exit < 2 ^ 32
    → entry < 2 ^ 32
    → ((v : ℕ) → secondary ≡ some v → v < 2 ^ 32)
    → All
        (λ w. w.1 < field_limit w.0)
        (control_writes (record {
          pin = pin;
          primary = primary;
          secondary = secondary;
          exit = exit;
          entry = entry;
        }))
control_writes-fit pin primary exit entry none h1 h2 h3 h4 h5 =
    let z : 0 < 2 ^ 32 = omega arith in
    (h1, (h2, (h3, (h4, (z, (z, (z, (z, (z, (z, (z, (omega arith, tt))))))))))))
control_writes-fit pin primary exit entry (some v) h1 h2 h3 h4 h5 =
    let z : 0 < 2 ^ 32 = omega arith in
    (h1, (h2, (h3, (h4, (h5 v refl, (z, (z, (z, (z, (z, (z, (z, (omega arith, tt)))))))))))))

optional-u32 :
    (wanted : Bool) (capability desired : ℕ) (o : Option ℕ) (v : ℕ)
    → optional wanted (or_unsupported (choose capability desired)) ≡ ok o
    → o ≡ some v
    → v < 2 ^ 32
optional-u32 wanted capability desired o v h e =
    elim (secondary_chosen wanted (choose capability desired) o v h (inr e)) [
      | inl unwanted ↦ let no : ok none ≡ ok o = rw unwanted at h in absurd cc
      | inr chosen ↦ choose-u32 capability desired v chosen
    ]

-- Some value of the controls of a group is legal.
abbrev pub HasLegal : ℕ → ℕ → Type 0
HasLegal capability wanted = (value : ℕ) × IsLegal capability wanted value

-- Every group of controls has a legal value; the secondary group need not, if none of it is desired.
abbrev pub HaveLegal : VmcsControlMsrs → DesiredControls → Type 0
HaveLegal capabilities desired =
    HasLegal capabilities.pinbased desired.pin
    × HasLegal capabilities.primary (wanted_primary desired)
    × ((desired.secondary ≡ 0) ⊎ HasLegal capabilities.secondary desired.secondary)
    × HasLegal capabilities.exit (bit_or desired.exit (2 ^ 9))
    × HasLegal capabilities.entry desired.entry

bind_fails :
    {A B : Type 0} (r : Result A VmcsError) (f : A → Result B VmcsError) (e : VmcsError)
    → (r >>= f) ≡ err e
    → (r ≡ err e) ⊎ ((a : A) × (r ≡ ok a) × (f a ≡ err e))
bind_fails (ok a) f e h = inr (a, refl, h)
bind_fails (err e') f e h = inl cc

or_unsupported_fails :
    (capability wanted : ℕ) (e : VmcsError)
    → or_unsupported (choose capability wanted) ≡ err e
    → (e ≡ unsupported_control_value) × (¬ HasLegal capability wanted)
or_unsupported_fails capability wanted e h = elim (Result-cases (choose capability wanted)) [
  | inl (value, found) ↦ let no_way = rw found at h in absurd cc
  | inr (e', failed) ↦
      let same : Path (Result ℕ VmcsError) (err unsupported_control_value) (err e) =
        rw failed at h in
      (cc, λ (value, legal). choose_fails capability wanted value e' failed legal)
]

optional_fails :
    (capability wanted : ℕ) (e : VmcsError)
    → optional (wanted != 0) (or_unsupported (choose capability wanted)) ≡ err e
    → (e ≡ unsupported_control_value) × (¬ ((wanted ≡ 0) ⊎ HasLegal capability wanted))
optional_fails capability wanted e h = elim (Bool-cases (wanted != 0)) [
  | inr unwanted ↦ let no_way = rw unwanted at h in absurd cc
  | inl asked ↦ elim (bind_fails (or_unsupported (choose capability wanted)) _ e (rw asked at h)) [
    | inl failed ↦
        let (is_error, illegal) = or_unsupported_fails capability wanted e failed in
        (
          is_error,
          λ either. elim either [
            | inl nothing ↦ absurd (ground (arith, asked, nothing))
            | inr legal ↦ illegal legal
          ],
        )
    | inr (value, found, other) ↦ absurd cc
  ]
]

require_fails : (b : Bool) (e e' : VmcsError) → require b e ≡ err e' → (e' ≡ e) × (b ≡ false)
require_fails true e e' h = absurd cc
require_fails false e e' h = (cc, refl)

-- The choice fails with one of two errors, each for its reason.
abbrev Fails : VmcsControlMsrs → DesiredControls → VmcsError → Type 0
Fails capabilities desired e =
    ((e ≡ unsupported_control_value) × (¬ HaveLegal capabilities desired))
    ⊎ ((e ≡ nmi_window_exiting_unsupported)
        × (allows capabilities.primary cpu_based_nmi_window_exiting ≡ false))

choose_controls-Fails :
    (capabilities : VmcsControlMsrs) (desired : DesiredControls) (e : VmcsError)
    → choose_controls capabilities desired ≡ err e
    → Fails capabilities desired e
unfolding choose_controls
choose_controls-Fails capabilities desired e h = elim (bind_fails _ _ e h) [
  | inl failed ↦
      let (is_error, illegal) = or_unsupported_fails _ _ e failed in
      inl (is_error, λ (a, b, c, d, f). illegal a)
  | inr (pin, e1, h1) ↦ elim (bind_fails _ _ e h1) [
    | inl failed ↦
        let (is_error, illegal) =
          or_unsupported_fails capabilities.primary (wanted_primary desired) e (
            ap (λ w. or_unsupported (choose capabilities.primary w))
              (sym (wanted_primary_lem desired))
            ∙ failed) in
        inl (is_error, λ (a, b, c, d, f). illegal b)
    | inr (primary, e2, h2) ↦ elim (bind_fails _ _ e h2) [
      | inl failed ↦
          let (is_error, illegal) =
            optional_fails capabilities.secondary desired.secondary e failed in
          inl (is_error, λ (a, b, c, d, f). illegal c)
      | inr (secondary, e3, h3) ↦ elim (bind_fails _ _ e h3) [
        | inl failed ↦ inr (require_fails _ nmi_window_exiting_unsupported e failed)
        | inr (allowed_window, e4, h4) ↦ elim (bind_fails _ _ e h4) [
          | inl failed ↦
              let (is_error, illegal) = or_unsupported_fails _ _ e failed in
              inl (is_error, λ (a, b, c, d, f). illegal d)
          | inr (exit, e5, h5) ↦ elim (bind_fails _ _ e h5) [
            | inl failed ↦
                let (is_error, illegal) = or_unsupported_fails _ _ e failed in
                inl (is_error, λ (a, b, c, d, f). illegal f)
            | inr (entry, e6, h6) ↦ absurd cc
          ]
        ]
      ]
    ]
  ]
]

chosen-HaveLegal :
    (capabilities : VmcsControlMsrs) (desired : DesiredControls) (chosen : ChosenControls)
    → AreChosen capabilities desired chosen
    → HaveLegal capabilities desired
chosen-HaveLegal capabilities desired chosen are = (
  (chosen.pin, (choose-IsChosen _ _ chosen.pin are.pin).0),
  (chosen.primary, (IsChosen-primary capabilities desired chosen.primary are.primary).0),
  elim (Option-cases chosen.secondary) [
    | inl unchosen ↦ elim (secondary_chosen _ _ chosen.secondary 0 are.secondary (inl unchosen)) [
      | inl unwanted ↦ inl (ground arith)
      | inr found ↦ inr (0, (choose-IsChosen _ _ 0 found).0)
    ]
    | inr (value, some_value) ↦
        elim (secondary_chosen _ _ chosen.secondary value are.secondary (inr some_value)) [
          | inl unwanted ↦ inl (ground arith)
          | inr found ↦ inr (value, (choose-IsChosen _ _ value found).0)
        ]
  ],
  (chosen.exit, (choose-IsChosen _ _ chosen.exit are.exit).0),
  (chosen.entry, (choose-IsChosen _ _ chosen.entry are.entry).0),
)

window_refused :
    (capability : ℕ)
    → allows capability cpu_based_nmi_window_exiting ≡ false
    → capability / 2 ^ 54 % 2 ≡ 0
unfolding allows allowed
window_refused capability h = ground (arith, bit_and_flag 22 (capability / 2 ^ 32 % 2 ^ 32), h)

-- On a CPU on which VMREAD and VMWRITE succeed, `configure_controls` succeeds, and then every group of
-- controls has a legal value (one with all that is required and desired, and with nothing that is not
-- allowed); or it writes nothing and fails: with an unsupported control value only if some group has no legal
-- value, and with unsupported NMI-window exiting only if bit 22 of the primary controls may not be set.
pub configure_controls_works :
    (cpu : Cpu) (capabilities : VmcsControlMsrs) (desired : DesiredControls) (s : Vmcs)
    → IsWorking cpu
    → (((configure_controls cpu capabilities desired s).0 ≡ ok tt) × HaveLegal capabilities desired)
      ⊎ ((configure_controls cpu capabilities desired s ≡ (err unsupported_control_value, s))
          × (¬ HaveLegal capabilities desired))
      ⊎ ((configure_controls cpu capabilities desired s ≡ (err nmi_window_exiting_unsupported, s))
          × (capabilities.primary / 2 ^ 54 % 2 ≡ 0))
unfolding configure_controls
configure_controls_works cpu capabilities desired s works =
    elim (Result-cases (choose_controls capabilities desired)) [
      | inr (e, failed) ↦ elim (choose_controls-Fails capabilities desired e failed) [
        | inl (is_error, illegal) ↦
            inr (inl (rw (configure_controls, failed, is_error) refl, illegal))
        | inr (is_error, refused) ↦ inr (
            inr (
              rw (configure_controls, failed, is_error) refl,
              window_refused capabilities.primary refused,
            ))
      ]
      | inl (chosen, e) ↦
          let are = choose_controls-AreChosen capabilities desired chosen e in
          let fit =
            control_writes-fit chosen.pin chosen.primary chosen.exit chosen.entry chosen.secondary
              (choose-u32 _ _ chosen.pin are.pin) (choose-u32 _ _ chosen.primary are.primary)
              (choose-u32 _ _ chosen.exit are.exit) (choose-u32 _ _ chosen.entry are.entry)
              (λ v some_v. optional-u32 _ _ _ chosen.secondary v are.secondary some_v) in
          inl (
            rw (configure_controls, e)
                (ap (λ r. r.0) (write_all-works cpu works (control_writes chosen) s fit)),
            chosen-HaveLegal capabilities desired chosen are,
          )
    ]
