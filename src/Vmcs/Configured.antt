-- ===== src/Vmcs/Configured.antt =====
-- What `configure_controls` of src/vmx/vmcs/mod.rs leaves in the VMCS.
use aleph0_virtualization_hy.Base.{
  ℕ, ◌/◌, ◌%◌, ◌^◌, ◌==◌, if◌then◌else◌, ◌≡◌, ◌⊎◌, inl, inr, refl, sym, ap, ◌∙◌, subst, Bool, true,
  false, arith, Option, none, some, bit_or, ◌!=◌, Result-cases, Result, ok, err,
}
use aleph0_virtualization_hy.Msr.Controls.{UnsupportedControl, allows, allowed, choose}
use aleph0_virtualization_hy.Msr.Legal.{IsChosen, choose-IsChosen}
use aleph0_virtualization_hy.Base.Bits.Lattice.{Includes}
use aleph0_virtualization_hy.Vmcs.Distinct.{is_distinct, written-Holds}
use aleph0_virtualization_hy.Vmcs.Manual.{HoldsControls, HoldsPlain, HoldsControls-of}
use aleph0_virtualization_hy.Vmcs.{VmcsError, nmi_window_exiting_unsupported}
use aleph0_virtualization_hy.Vmcs.Fields.Controls.{
  cpu_based_nmi_window_exiting, vm_exit_host_address_space_size,
}
use aleph0_virtualization_hy.Vmcs.Access.{Vmcs, Cpu}
use aleph0_virtualization_hy.Vmcs.Writes.{written, is_listed, write_all-ok}
use aleph0_virtualization_hy.Vmcs.Controls.{
  DesiredControls, primary_request, VmcsControlMsrs, ChosenControls, ◌>>=◌, or_unsupported,
  optional, require, choose_controls, control_writes, configure_controls,
}

bind-inv :
    {A B : Type 0} (r : Result A VmcsError) (f : A → Result B VmcsError) (b : B)
    → (r >>= f) ≡ ok b
    → (a : A) × (r ≡ ok a) × (f a ≡ ok b)
bind-inv (ok a) f b h = (a, refl, h)
bind-inv (err e) f b h = absurd cc

or_unsupported-inv : (r : Result ℕ UnsupportedControl) (v : ℕ) → or_unsupported r ≡ ok v → r ≡ ok v
or_unsupported-inv (ok a) v h = cc
or_unsupported-inv (err e) v h = absurd cc

require-inv : (b : Bool) (e : VmcsError) {u : Unit {0}} → require b e ≡ ok u → b ≡ true
require-inv true e h = refl
require-inv false e h = absurd cc

-- What the chosen values are.
pub record AreChosen (capabilities : VmcsControlMsrs) (desired : DesiredControls)
    (chosen : ChosenControls) : Type 0 where
  pub pin : choose capabilities.pinbased desired.pin ≡ ok chosen.pin
  pub primary : choose capabilities.primary (primary_request desired) ≡ ok chosen.primary
  pub secondary :
      optional
        (desired.secondary != 0)
        (or_unsupported (choose capabilities.secondary desired.secondary))
      ≡ ok chosen.secondary
  pub window : allows capabilities.primary cpu_based_nmi_window_exiting ≡ true
  pub exit :
      choose capabilities.exit (bit_or desired.exit vm_exit_host_address_space_size)
      ≡ ok chosen.exit
  pub entry : choose capabilities.entry desired.entry ≡ ok chosen.entry

pub choose_controls-AreChosen :
    (capabilities : VmcsControlMsrs) (desired : DesiredControls) (chosen : ChosenControls)
    → choose_controls capabilities desired ≡ ok chosen
    → AreChosen capabilities desired chosen
unfolding choose_controls
choose_controls-AreChosen capabilities desired chosen h =
    let (pin, e1, h1) = bind-inv _ _ chosen h in
    let (primary, e2, h2) = bind-inv _ _ chosen h1 in
    let (secondary, e3, h3) = bind-inv _ _ chosen h2 in
    let (allowed, e4, h4) = bind-inv _ _ chosen h3 in
    let (exit, e5, h5) = bind-inv _ _ chosen h4 in
    let (entry, e6, h6) = bind-inv _ _ chosen h5 in
    let same : record {
      pin = pin;
      primary = primary;
      secondary = secondary;
      exit = exit;
      entry = entry;
    }
        ≡ chosen =
      cc in
    subst (AreChosen capabilities desired) same (record {
      pin = or_unsupported-inv _ pin e1;
      primary = or_unsupported-inv _ primary e2;
      secondary = e3;
      window = require-inv _ nmi_window_exiting_unsupported e4;
      exit = or_unsupported-inv _ exit e5;
      entry = or_unsupported-inv _ entry e6;
    })

pub secondary_chosen :
    (wanted : Bool) (r : Result ℕ UnsupportedControl) (o : Option ℕ) (v : ℕ)
    → optional wanted (or_unsupported r) ≡ ok o
    → ((o ≡ none) ⊎ (o ≡ some v))
    → (wanted ≡ false) ⊎ (r ≡ ok v)
secondary_chosen false r o v h either = inl refl
secondary_chosen true (ok a) o v h (inl e) = absurd cc
secondary_chosen true (ok a) o v h (inr e) = inr cc
secondary_chosen true (err e) o v h either = absurd cc

-- A success chose the values and has made every write.
pub configure_controls-written :
    (cpu : Cpu) (capabilities : VmcsControlMsrs) (desired : DesiredControls) (s s' : Vmcs)
    → configure_controls cpu capabilities desired s ≡ (ok tt, s')
    → (chosen : ChosenControls) × (choose_controls capabilities desired ≡ ok chosen)
      × (s' ≡ written s (control_writes chosen))
unfolding configure_controls
configure_controls-written cpu capabilities desired s s' h =
    elim (Result-cases (choose_controls capabilities desired)) [
      | inr (e, failed) ↦ let no = rw (configure_controls, failed) at h in absurd cc
      | inl (chosen, e) ↦ (
        chosen,
        e,
        write_all-ok cpu (control_writes chosen) s s' (rw (configure_controls, e) at h),
      )
    ]

-- The fields that `control_writes` writes are all different.
distinct_with :
    (pin primary exit entry : ℕ) (secondary : Option ℕ)
    → is_distinct (
        control_writes (record {
          pin = pin;
          primary = primary;
          secondary = secondary;
          exit = exit;
          entry = entry;
        }))
      ≡ true
unfolding is_distinct is_listed
distinct_with pin primary exit entry none = refl
distinct_with pin primary exit entry (some v) = refl

written-HoldsControls :
    (s : Vmcs) (chosen : ChosenControls) → HoldsControls (written s (control_writes chosen)) chosen
written-HoldsControls s chosen =
    HoldsControls-of (written s (control_writes chosen)) chosen.pin chosen.primary chosen.exit
      chosen.entry chosen.secondary
      (written-Holds (control_writes chosen) s
        (distinct_with chosen.pin chosen.primary chosen.exit chosen.entry chosen.secondary))

-- What is asked of the primary controls: the secondary ones are activated (bit 31) if any is desired.
abbrev pub wanted_primary : DesiredControls → ℕ
wanted_primary desired =
    if desired.secondary == 0 then desired.primary else bit_or desired.primary (2 ^ 31)

pub wanted_primary_lem :
    (desired : DesiredControls) → primary_request desired ≡ wanted_primary desired
unfolding primary_request
wanted_primary_lem desired = ground arith

pub IsChosen-primary :
    (capabilities : VmcsControlMsrs) (desired : DesiredControls) (value : ℕ)
    → choose capabilities.primary (primary_request desired) ≡ ok value
    → IsChosen capabilities.primary (wanted_primary desired) value
IsChosen-primary capabilities desired value h =
    choose-IsChosen capabilities.primary (wanted_primary desired) value
      (ap (choose capabilities.primary) (sym (wanted_primary_lem desired)) ∙ h)

pub allows-Includes :
    (capability bits : ℕ)
    → allows capability bits ≡ true
    → Includes (capability / 2 ^ 32 % 2 ^ 32) bits
unfolding allows allowed
allows-Includes capability bits h = ground (arith, h)

-- When `configure_controls` succeeds, the VMCS, by the encodings of the manual, holds a value of every group
-- of controls with every bit that its capability MSR requires, no bit that the MSR does not allow, every
-- desired bit and no other, with 64-bit host mode (bit 9) among the exit controls; the secondary controls
-- too, which are activated, unless none is desired; NMI-window exiting (bit 22) is allowed; the counts, the
-- event to inject and the two page-fault fields are zero, and every exception exits.
pub configure_controls_ok :
    (cpu : Cpu) (capabilities : VmcsControlMsrs) (desired : DesiredControls) (s s' : Vmcs)
    → configure_controls cpu capabilities desired s ≡ (ok tt, s')
    → IsChosen capabilities.pinbased desired.pin (s' 0x4000)
      × IsChosen capabilities.primary (wanted_primary desired) (s' 0x4002)
      × IsChosen capabilities.exit (bit_or desired.exit (2 ^ 9)) (s' 0x400C)
      × IsChosen capabilities.entry desired.entry (s' 0x4012)
      × ((desired.secondary ≡ 0) ⊎ IsChosen capabilities.secondary desired.secondary (s' 0x401E))
      × Includes (capabilities.primary / 2 ^ 32 % 2 ^ 32) (2 ^ 22)
      × HoldsPlain s'
configure_controls_ok cpu capabilities desired s s' h =
    let (chosen, found, wrote) = configure_controls-written cpu capabilities desired s s' h in
    let are = choose_controls-AreChosen capabilities desired chosen found in
    let (values, second, plain) =
      subst (λ (x : Vmcs). HoldsControls x chosen) (sym wrote) (written-HoldsControls s chosen) in
    let (pin, (primary, (exit, (entry, rest)))) = values in
    (
      subst (IsChosen capabilities.pinbased desired.pin) (sym pin)
          (choose-IsChosen _ _ chosen.pin are.pin),
      subst (IsChosen capabilities.primary (wanted_primary desired)) (sym primary)
          (IsChosen-primary capabilities desired chosen.primary are.primary),
      subst (IsChosen capabilities.exit (bit_or desired.exit (2 ^ 9))) (sym exit)
          (choose-IsChosen _ _ chosen.exit are.exit),
      subst (IsChosen capabilities.entry desired.entry) (sym entry)
          (choose-IsChosen _ _ chosen.entry are.entry),
      elim (secondary_chosen _ _ chosen.secondary _ are.secondary second) [
        | inl unwanted ↦ inl (ground arith)
        | inr wanted ↦ inr (choose-IsChosen _ _ _ wanted)
      ],
      allows-Includes capabilities.primary (2 ^ 22) are.window,
      plain,
    )
