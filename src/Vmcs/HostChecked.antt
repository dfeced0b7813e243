-- ===== src/Vmcs/HostChecked.antt =====
-- What `configure_host_state` of src/vmx/vmcs/mod.rs checks, and what it leaves in the VMCS.
use aleph0_virtualization_hy.Base.{
  ℕ, ◌%◌, ◌≡◌, ◌≢◌, inl, inr, refl, sym, ◌∙◌, subst, true, false, List, [], ◌∷◌, ◌++◌, arith, All,
  Bool-cases, bit_and, ◌!=◌, Result, ok, err,
}
use aleph0_virtualization_hy.Base.Bits.{bit_and_low}
use aleph0_virtualization_hy.Segment.{Host, SegmentState, selector_rpl_ti, read_all}
use aleph0_virtualization_hy.Vmcs.{VmcsError, from_fail}
use aleph0_virtualization_hy.Vmcs.Fields.Controls.{
  vm_exit_controls, vm_exit_load_ia32_pat, vm_exit_load_ia32_efer,
}
use aleph0_virtualization_hy.Vmcs.Access.{Vmcs, Cpu, vmread, write_all}
use aleph0_virtualization_hy.Vmcs.Writes.{
  written, is_listed, flags-cases, bind-ok, bind-err, vmread-ok, vmread-err, write_all-ok,
}
use aleph0_virtualization_hy.Vmcs.Distinct.{is_distinct, Holds, written-Holds}
use aleph0_virtualization_hy.Vmcs.Manual.{HoldsHost, HoldsHost-of}
use aleph0_virtualization_hy.Vmcs.HostState.{
  any, selectors, is_refused, host_writes, loaded_writes, write_host, configure_host_state,
}

-- VM entry takes selectors whose low three bits are clear, and a CS and a TR that are not null.
pub record AreEnterable (state : SegmentState) : Type 0 where
  pub aligned :
      All
        (λ selector. selector % 8 ≡ 0)
        (state.es ∷ state.cs ∷ state.ss ∷ state.ds ∷ state.fs ∷ state.gs ∷ state.tr ∷ [])
  pub cs : state.cs ≢ 0
  pub tr : state.tr ≢ 0

any-All :
    (xs : List ℕ)
    → any (λ selector. bit_and selector selector_rpl_ti != 0) xs ≡ false
    → All (λ selector. selector % 8 ≡ 0) xs
any-All [] h = tt
any-All (x ∷ xs) h =
    let low = bit_and_low 3 x in (ground (arith, low, h), any-All xs (ground arith))

accepted-AreEnterable : (state : SegmentState) → is_refused state ≡ false → AreEnterable state
unfolding is_refused
accepted-AreEnterable state h = record {
  aligned = any-All (selectors state) (ground arith);
  cs = λ e. absurd (ground (arith, e, h));
  tr = λ e. absurd (ground (arith, e, h));
}

distinct_with :
    (host : Host) (state : SegmentState) (controls : ℕ)
    → is_distinct (host_writes host state ++ loaded_writes host controls) ≡ true
unfolding is_distinct is_listed
distinct_with host state controls =
    elim (Bool-cases (bit_and controls vm_exit_load_ia32_pat != 0)) [
      | inl pat ↦ elim (Bool-cases (bit_and controls vm_exit_load_ia32_efer != 0)) [
        | inl efer ↦ rw (pat, efer) refl
        | inr efer ↦ rw (pat, efer) refl
      ]
      | inr pat ↦ elim (Bool-cases (bit_and controls vm_exit_load_ia32_efer != 0)) [
        | inl efer ↦ rw (pat, efer) refl
        | inr efer ↦ rw (pat, efer) refl
      ]
    ]

-- A success has checked the selectors and made every write.
pub configure_host_state-written :
    (cpu : Cpu) (host : Host) (s s' : Vmcs)
    → configure_host_state cpu host s ≡ (ok tt, s')
    → AreEnterable (read_all host)
      × (s'
          ≡ written s (host_writes host (read_all host) ++ loaded_writes host (s vm_exit_controls)))
unfolding configure_host_state
configure_host_state-written cpu host s s' h =
    let ws = host_writes host (read_all host) ++ loaded_writes host (s vm_exit_controls) in
    elim (Bool-cases (is_refused (read_all host))) [
      | inl refused ↦ let no = rw refused at h in absurd cc
      | inr accepted ↦
          let e = rw accepted at h in
          elim (flags-cases (cpu.read_flags vm_exit_controls)) [
            | inr (x, failed) ↦
                let no : Path (Result (Unit {0}) VmcsError × Vmcs) (err (from_fail x), s)
                    (ok tt, s') =
                  sym (
                    bind-err (vmread cpu vm_exit_controls) (write_host cpu host) s s (from_fail x)
                      (vmread-err cpu vm_exit_controls s x failed))
                  ∙ e in
                absurd cc
            | inl read ↦
                let done : write_all cpu ws s ≡ (ok tt, s') =
                  sym (
                    bind-ok (vmread cpu vm_exit_controls) (write_host cpu host) s s
                      (s vm_exit_controls) (vmread-ok cpu vm_exit_controls s read))
                  ∙ e in
                (accepted-AreEnterable (read_all host) accepted, write_all-ok cpu ws s s' done)
          ]
    ]

-- When `configure_host_state` succeeds, the host's selectors are ones that VM entry takes, and the
-- host-state area of the VMCS, by the encodings of the manual, holds the host's selectors, control
-- registers, bases and SYSENTER MSRs: PAT and EFER too, where the exit controls in the VMCS load them.
pub configure_host_state-Holds :
    (cpu : Cpu) (host : Host) (s s' : Vmcs)
    → configure_host_state cpu host s ≡ (ok tt, s')
    → AreEnterable (read_all host) × HoldsHost s' host (s 0x400C)
configure_host_state-Holds cpu host s s' h =
    let ws = host_writes host (read_all host) ++ loaded_writes host (s vm_exit_controls) in
    let (enterable, wrote) = configure_host_state-written cpu host s s' h in
    (
      enterable,
      HoldsHost-of s' host (s vm_exit_controls) (
          subst (λ (x : Vmcs). Holds x ws) (sym wrote)
            (written-Holds ws s (distinct_with host (read_all host) (s vm_exit_controls)))),
    )
