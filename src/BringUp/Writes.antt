-- ===== src/BringUp/Writes.antt =====
-- The writes of `prepare_vmcs` of src/bring_up/mod.rs, and what a step of it that is done has written.
use Prim.Native.String.{String}
use aleph0_virtualization_hy.Base.{
  if◌then◌else◌, ℕ, ◌≡◌, ◌≢◌, Bool-cases, ◌==◌, ◌||◌, inl, inr, refl, sym, ap, ap₂, ◌∙◌, true, ◌!=◌,
  Bool, false, ◌&&◌, List, [], ◌∷◌, ◌++◌, arith, Option, none, some, bit_and, Result, ok, err,
}
use aleph0_virtualization_hy.Ept.Publish.{Ept}
use aleph0_virtualization_hy.ExitBitmaps.Region.{ExitBitmaps, bitmap_writes, write_to_vmcs}
use aleph0_virtualization_hy.GuestMemory.{GuestMemory, idt}
use aleph0_virtualization_hy.GuestState.{GuestState, from_current, write, state_writes}
use aleph0_virtualization_hy.GuestState.Stored.{write-written}
use aleph0_virtualization_hy.Msr.{ia32_pat, ia32_efer}
use aleph0_virtualization_hy.Segment.{Host, SegmentState}
use aleph0_virtualization_hy.Vmcs.Access.{
  Vmcs, Cpu, Action, write_field, vmread, set_ept_pointer, configure_host_entry,
}
use aleph0_virtualization_hy.Vmcs.Controls.{ChosenControls, control_writes}
use aleph0_virtualization_hy.Vmcs.Fields.Controls.{
  vm_exit_controls, ept_pointer, vm_exit_load_ia32_pat, vm_exit_load_ia32_efer,
}
use aleph0_virtualization_hy.Vmcs.Fields.Host.{host_rsp, host_rip, host_ia32_pat, host_ia32_efer}
use aleph0_virtualization_hy.Vmcs.Distinct.{is_distinct}
use aleph0_virtualization_hy.Vmcs.HostState.{host_writes, loaded_writes}
use aleph0_virtualization_hy.Vmcs.Writes.{written, is_listed, write_verified-cases, write_all-ok}
use aleph0_virtualization_hy.BringUp.Error.{BringUpError, vmcs_step, guest_state_error}
use aleph0_virtualization_hy.BringUp.Step.{done, outcome}
use aleph0_virtualization_hy.BringUp.Prepare.{tagged, captured, stored}

-- Every write after the self-test, in order.
abbrev pub all_writes :
    Host → SegmentState → ℕ → ChosenControls → Ept → ExitBitmaps → ℕ → GuestState → List (ℕ × ℕ)
all_writes host segments entry_address chosen ept bitmaps stack_end state =
    control_writes chosen
    ++ ((ept_pointer, ept.eptp)
        ∷ (bitmap_writes bitmaps
            ++ ((host_writes host segments ++ loaded_writes host chosen.exit)
                ++ ((host_rsp, stack_end) ∷ (host_rip, entry_address) ∷ state_writes state))))

all_flags : (Bool → Bool) → Bool
all_flags test = test true && test false

all_flags_sound : (test : Bool → Bool) → all_flags test ≡ true → (b : Bool) → test b ≡ true
unfolding all_flags
all_flags_sound test h true = ground arith
all_flags_sound test h false = ground arith

abbrev optional_value : Bool → ℕ → Option ℕ
optional_value true v = some v
optional_value false v = none

optional_value-cases : (o : Option ℕ) → (b : Bool) × (v : ℕ) × (optional_value b v ≡ o)
optional_value-cases none = (false, 0, refl)
optional_value-cases (some v) = (true, v, refl)

module _ (host : Host) (segments : SegmentState) (entry_address : ℕ) (chosen : ChosenControls)
    (ept : Ept) (bitmaps : ExitBitmaps) (stack_end : ℕ) (state : GuestState) where
  -- The writes by what is optional: the host's PAT and EFER, the secondary controls, and the guest's
  -- PAT and EFER.
  abbrev writes_with : Bool → Bool → Option ℕ → Option ℕ → Option ℕ → List (ℕ × ℕ)
  writes_with pat efer secondary guest_pat guest_efer =
      control_writes (record chosen { secondary = secondary })
      ++ ((ept_pointer, ept.eptp)
          ∷ (bitmap_writes bitmaps
              ++ ((host_writes host segments
                    ++ ((if pat then (host_ia32_pat, host.rdmsr ia32_pat) ∷ [] else [])
                        ++ (if efer then (host_ia32_efer, host.rdmsr ia32_efer) ∷ [] else [])))
                  ++ ((host_rsp, stack_end)
                      ∷ (host_rip, entry_address)
                      ∷ state_writes (record state { pat = guest_pat; efer = guest_efer })))))

  distinct_all_flags :
      (u v w : ℕ)
      → all_flags (λ a. all_flags λ b. all_flags λ c. all_flags λ d. all_flags λ e.
        is_distinct
          (writes_with a b (optional_value c u) (optional_value d v) (optional_value e w)))
        ≡ true
  unfolding all_flags is_distinct is_listed
  distinct_all_flags u v w = refl

  -- No field is written twice.
  pub distinct_all :
      is_distinct (all_writes host segments entry_address chosen ept bitmaps stack_end state) ≡ true
  distinct_all =
      let a = bit_and chosen.exit vm_exit_load_ia32_pat != 0 in
      let b = bit_and chosen.exit vm_exit_load_ia32_efer != 0 in
      let (c, u, is_secondary) = optional_value-cases chosen.secondary in
      let (d, v, is_pat) = optional_value-cases state.pat in
      let (e, w, is_efer) = optional_value-cases state.efer in
      let at =
        all_flags_sound _
          (all_flags_sound _
            (all_flags_sound _
              (all_flags_sound _ (all_flags_sound _ (distinct_all_flags u v w) a) b) c)
            d)
          e in
      let same : is_distinct
            (writes_with a b (optional_value c u) (optional_value d v) (optional_value e w))
          ≡ is_distinct (writes_with a b chosen.secondary state.pat state.efer) =
        λ i. is_distinct (writes_with a b (is_secondary i) (is_pat i) (is_efer i)) in
      sym same ∙ at

written-append :
    (xs ys : List (ℕ × ℕ)) (s : Vmcs) → written (written s xs) ys ≡ written s (xs ++ ys)
unfolding written
written-append [] ys s = refl
written-append ((f, v) ∷ xs) ys s = written-append xs ys (write_field s f v)

-- Writes after writes.
written_on :
    (s t u : Vmcs) (xs ys : List (ℕ × ℕ))
    → t ≡ written s xs
    → u ≡ written t ys
    → u ≡ written s (xs ++ ys)
written_on s t u xs ys before after =
    after ∙ ap (λ (x : Vmcs). written x ys) before ∙ written-append xs ys s

-- Three runs of writes, and six.
pub written_three :
    (s1 s2 s3 s4 : Vmcs) (a b c : List (ℕ × ℕ))
    → s2 ≡ written s1 a
    → s3 ≡ written s2 b
    → s4 ≡ written s3 c
    → s4 ≡ written s1 (a ++ (b ++ c))
written_three s1 s2 s3 s4 a b c h2 h3 h4 =
    written_on s1 s2 s4 a (b ++ c) h2 (written_on s2 s3 s4 b c h3 h4)

pub written_six :
    (s1 s2 s3 s4 s5 s6 s7 : Vmcs) (a b c d e f : List (ℕ × ℕ))
    → s2 ≡ written s1 a
    → s3 ≡ written s2 b
    → s4 ≡ written s3 c
    → s5 ≡ written s4 d
    → s6 ≡ written s5 e
    → s7 ≡ written s6 f
    → s7 ≡ written s1 (a ++ (b ++ (c ++ (d ++ (e ++ f)))))
written_six s1 s2 s3 s4 s5 s6 s7 a b c d e f h2 h3 h4 h5 h6 h7 =
    written_three s1 s2 s3 s7 a b (c ++ (d ++ (e ++ f))) h2 h3
      (written_three s3 s4 s5 s7 c d (e ++ f) h4 h5 (written_on s5 s6 s7 e f h6 h7))

pub outcome-inv :
    {E A : Type 0} (from : E → BringUpError) (r : Result A E) (a : A)
    → outcome from r ≡ done a
    → r ≡ ok a
outcome-inv from (ok b) a h = cc
outcome-inv from (err e) a h = absurd cc

module _ (cpu : Cpu) where
  pub tagged-inv :
      {A : Type 0} (operation : String) (action : Action A) (s s' : Vmcs) (a : A)
      → tagged cpu operation action s ≡ (done a, s')
      → action s ≡ (ok a, s')
  unfolding tagged
  tagged-inv operation action s s' a h =
      ap₂ (λ r t. (r, t))
        (outcome-inv (vmcs_step cpu (action s).1 operation) (action s).0 a (ap (λ r. r.0) h))
        (ap (λ r. r.1) h)

  pub captured-inv :
      (host : Host) (code stack : ℕ) (guest : GuestMemory) (s s' : Vmcs) (state : GuestState)
      → captured cpu host code stack guest s ≡ (done state, s')
      → (from_current host cpu s code stack (idt guest) ≡ ok state) × (s' ≡ s)
  unfolding captured
  captured-inv host code stack guest s s' state h =
      (outcome-inv (guest_state_error cpu s) _ state (ap (λ r. r.0) h), sym (ap (λ r. r.1) h))

  pub stored-inv :
      (state : GuestState) (s s' : Vmcs) {u : Unit {0}}
      → stored cpu state s ≡ (done u, s')
      → s' ≡ written s (state_writes state)
  unfolding stored
  stored-inv state s s' h = write-written cpu state s s' (
      ap₂ (λ r t. (r, t))
        (outcome-inv (guest_state_error cpu (write cpu state s).1) _ tt (ap (λ r. r.0) h))
        (ap (λ r. r.1) h))

  pub set_ept_pointer-written :
      (eptp : ℕ) (s s' : Vmcs)
      → set_ept_pointer cpu eptp s ≡ (ok tt, s')
      → s' ≡ written s ((ept_pointer, eptp) ∷ [])
  unfolding set_ept_pointer written
  set_ept_pointer-written eptp s s' h = elim (write_verified-cases cpu ept_pointer eptp s) [
    | inl wrote ↦ sym (ap (λ r. r.1) h) ∙ ap (λ r. r.1) wrote
    | inr (e, t, failed, changed) ↦
        let no : err e ≡ ok tt = sym (ap (λ r. r.0) failed) ∙ ap (λ r. r.0) h in absurd cc
  ]

  pub configure_host_entry-written :
      (stack_end entry_address : ℕ) (s s' : Vmcs)
      → configure_host_entry cpu stack_end entry_address s ≡ (ok tt, s')
      → (entry_address ≢ 0)
        × (s' ≡ written s ((host_rsp, stack_end) ∷ (host_rip, entry_address) ∷ []))
  unfolding configure_host_entry
  configure_host_entry-written stack_end entry_address s s' h =
      elim (Bool-cases
        ((stack_end == 0) || ((bit_and stack_end 15 != 0) || (entry_address == 0)))) [
          | inl bad ↦ let no = rw bad at h in absurd cc
          | inr good ↦
              let e = rw good at h in
              (
                λ zero_address. absurd (ground (arith, good, zero_address)),
                write_all-ok cpu ((host_rsp, stack_end) ∷ (host_rip, entry_address) ∷ []) s s' e,
              )
        ]

  pub write_to_vmcs-written :
      (bitmaps : ExitBitmaps) (s s' : Vmcs)
      → write_to_vmcs cpu bitmaps s ≡ (ok tt, s')
      → s' ≡ written s (bitmap_writes bitmaps)
  unfolding write_to_vmcs
  write_to_vmcs-written bitmaps s s' h = write_all-ok cpu (bitmap_writes bitmaps) s s' h

  pub vmread-inv : (field : ℕ) (s s' : Vmcs) (a : ℕ) → vmread cpu field s ≡ (ok a, s') → s' ≡ s
  unfolding vmread
  vmread-inv field s s' a h = sym (ap (λ r. r.1) h)

-- The exit controls that are read back are the chosen ones.
pub exit_controls-written :
    (s : Vmcs) (chosen : ChosenControls) (secondary : Option ℕ) (ept : Ept) (bitmaps : ExitBitmaps)
    → written s
        (control_writes (record chosen { secondary = secondary })
          ++ ((ept_pointer, ept.eptp) ∷ bitmap_writes bitmaps))
        vm_exit_controls
      ≡ chosen.exit
unfolding written
exit_controls-written s chosen none ept bitmaps = refl
exit_controls-written s chosen (some v) ept bitmaps = refl
