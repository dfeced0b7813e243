-- ===== src/BringUp/Finished.antt =====
-- What a `run` of src/bring_up/mod.rs that succeeds has done.
use aleph0_virtualization_hy.Base.{
  ℕ, ◌≡◌, ◌⊎◌, inl, inr, refl, sym, ap, ap₂, ◌∙◌, subst, true, arith, Bool-cases, Option, none,
  some, Result, ok, err,
}
use aleph0_virtualization_hy.Segment.{Host, read_gdtr, read_idtr, segment_base_from_gdt}
use aleph0_virtualization_hy.Vmcs.Access.{Vmcs}
use aleph0_virtualization_hy.Vmcs.Launch
use aleph0_virtualization_hy.Vmcs.Launch.{GuestStop, decode, launch}
use aleph0_virtualization_hy.VmxOperation.{VmxRegion}
use aleph0_virtualization_hy.BringUp.Error.{TeardownError, number_now}
use aleph0_virtualization_hy.BringUp.Step.{Outcome, done, failed, panicked, and_then-elim}
use aleph0_virtualization_hy.BringUp.Machine.{Machine, Environment}
use aleph0_virtualization_hy.BringUp.Allocation.{create_current}
use aleph0_virtualization_hy.BringUp.Tables.{
  HostTables, are_preserved, check_host_tables_preserved, activate_host_tables,
}
use aleph0_virtualization_hy.BringUp.Entered.{IsEntered, enter_vmx-IsEntered}
use aleph0_virtualization_hy.BringUp.Keeps.{create_current-Keeps}
use aleph0_virtualization_hy.BringUp.Prepared.{IsPrepared, prepare_vmcs-IsPrepared}
use aleph0_virtualization_hy.BringUp.Prepare.{prepare_vmcs}
use aleph0_virtualization_hy.BringUp.Teardown.{Torn, teardown}
use aleph0_virtualization_hy.BringUp.HandedBack.{HasLeft, IsFailure, teardown-IsHandedBack}
use aleph0_virtualization_hy.BringUp.Sequence.{
  GuestRun, VmxEntry, enter_vmx, finished, tear_down, with_vmcs, with_entry, run, guest_result,
  launch_and_stop, prepare, launch_guest,
}

-- The host's tables are the activated ones.
abbrev pub AreActivated : Host → HostTables → Type 0
AreActivated host tables =
    (read_gdtr host ≡ tables.gdtr)
    × (read_idtr host ≡ tables.idtr)
    × (host.tr ≡ tables.tr)
    × (segment_base_from_gdt host (read_gdtr host) host.tr ≡ tables.tss_base)

are_preserved-AreActivated :
    (host : Host) (tables : HostTables)
    → are_preserved host tables ≡ true
    → AreActivated host tables
unfolding are_preserved
are_preserved-AreActivated host tables h =
    (ground (arith, h), ground (arith, h), ground (arith, h), ground (arith, h))

guest_result-inv :
    (stop : GuestStop) (exits : ℕ)
    → guest_result stop ≡ done (record { exits = exits })
    → stop ≡ Launch.finished exits
unfolding guest_result
guest_result-inv (Launch.finished n) exits h = cc
guest_result-inv (Launch.unexpected n reason) exits h = absurd cc
guest_result-inv (Launch.launch_failed e n) exits h = absurd cc
guest_result-inv (Launch.resume_failed e n) exits h = absurd cc

-- Reading the VM-instruction error does not make a stop a finished one.
launch-inv :
    (read : Option ℕ) (value exits : ℕ)
    → launch read value ≡ Launch.finished exits
    → decode value ≡ Launch.finished exits
unfolding launch
launch-inv read value exits h = ground (arith, h)

left_or : (r : Result (Unit {0}) TeardownError) (P : Type 0) → r ≡ ok tt → (P ⊎ IsFailure r) → P
left_or r P is_ok (inl p) = p
left_or r P is_ok (inr (e, no_way)) = let no_tt : err e ≡ ok tt = sym no_way ∙ is_ok in absurd cc

-- What `launch_guest` has done from a machine with a current VMCS: only the VMCS has changed, every field of
-- it is prepared, the host's tables are the activated ones, and the guest stopped with the value of a
-- finished run.
pub record HasLaunched (env : Environment) (exits : ℕ) (tables : HostTables) (entry : VmxEntry)
    (m : Machine) : Type 0 where
  pub ready : Machine
  pub only_vmcs : ready ≡ record m { vmcs = ready.vmcs }
  pub in_operation : ready.in_vmx ≡ true
  pub activated : AreActivated ready.host tables
  pub prepared :
      IsPrepared env.cpu ready.host env.entry_address entry.controls entry.vmexit_stack entry.guest
        entry.ept entry.bitmaps ready.vmcs
  pub stopped : decode (env.run_guest ready).0 ≡ Launch.finished exits

-- What a run from `m` that ends in `m'` has done: it activated the tables, entered VMX operation, made a
-- VMCS current and launched the guest, each from the machine that the step before it left; and it has left
-- that VMX operation.
pub record HasFinished (env : Environment) (exits : ℕ) (m m' : Machine) : Type 0 where
  pub tables : HostTables
  pub at_tables : Machine
  pub is_activated : activate_host_tables env m ≡ (done tables, at_tables)
  pub entry : VmxEntry
  pub at_entry : Machine
  pub is_entered : enter_vmx env tables at_tables ≡ (done entry, at_entry)
  pub region : VmxRegion
  pub at_vmcs : Machine
  pub is_created : create_current env at_entry ≡ (done region, at_vmcs)
  pub launched : HasLaunched env exits tables entry at_vmcs
  pub left : HasLeft entry.vmx_operation m'

module _ (env : Environment) (exits : ℕ) where
  finished-inv :
      (r : Outcome GuestRun) (torn : Torn) (m' : Machine)
      → finished env r torn ≡ (done (record { exits = exits }), m')
      → (r ≡ done (record { exits = exits })) × (torn.0 ≡ ok tt) × (torn.1 ≡ m')
  finished-inv (done g) (ok nothing, m) m' h = (ap (λ p. p.0) h, refl, ap (λ p. p.1) h)
  finished-inv (done g) (err e, m) m' h = absurd cc
  finished-inv (failed e) (left, m) m' h = absurd cc
  finished-inv panicked (left, m) m' h = absurd cc

  tear_down-inv :
      (entry : VmxEntry) (region : Option VmxRegion) (r : Outcome GuestRun × Machine) (m' : Machine)
      → tear_down env entry region r ≡ (done (record { exits = exits }), m')
      → (r.0 ≡ done (record { exits = exits })) × HasLeft entry.vmx_operation m'
  tear_down-inv entry region (done g, m) m' h =
      let torn = teardown env entry.vmx_operation region entry.firmware m in
      let (is_done, is_ok, at) = finished-inv (done g) torn m' h in
      let (g1, g2, g3, g4, left) =
        teardown-IsHandedBack env entry.vmx_operation region entry.firmware m in
      (is_done, subst (HasLeft entry.vmx_operation) at (left_or torn.0 _ is_ok left))
  tear_down-inv entry region (failed e, m) m' h =
      let torn = teardown env entry.vmx_operation region entry.firmware m in
      let (is_done, is_ok, at) = finished-inv (failed e) torn m' h in absurd cc
  tear_down-inv entry region (panicked, m) m' h = absurd cc

  -- From what `launch_guest` called.
  from_calls :
      (entry : VmxEntry) (tables : HostTables) (m ready : Machine) (s : Vmcs)
      → m.in_vmx ≡ true
      → prepare_vmcs env.cpu m.host env.entry_address entry.controls entry.vmexit_stack entry.guest
          entry.ept entry.bitmaps m.vmcs
        ≡ (done tt, s)
      → record m { vmcs = s } ≡ ready
      → are_preserved ready.host tables ≡ true
      → guest_result
          (launch (number_now env.cpu (env.run_guest ready).1.vmcs) (env.run_guest ready).0)
        ≡ done (record { exits = exits })
      → HasLaunched env exits tables entry m
  from_calls entry tables m ready s on prepared is_ready preserved finish = record {
    ready = ready;
    only_vmcs = sym is_ready ∙ ap (λ (x : Machine). record m { vmcs = x.vmcs }) is_ready;
    in_operation = sym (ap (λ (x : Machine). x.in_vmx) is_ready) ∙ on;
    activated = are_preserved-AreActivated ready.host tables preserved;
    prepared =
        subst
          (λ (x : Machine).
            IsPrepared env.cpu x.host env.entry_address entry.controls entry.vmexit_stack
              entry.guest entry.ept entry.bitmaps x.vmcs)
          is_ready
          (prepare_vmcs-IsPrepared env.cpu m.host env.entry_address entry.controls
            entry.vmexit_stack entry.guest entry.ept entry.bitmaps m.vmcs s prepared);
    stopped = launch-inv _ _ exits (guest_result-inv _ exits finish);
  }

  preserved-inv :
      (tables : HostTables) (m same : Machine) {u : Unit {0}}
      → check_host_tables_preserved tables m ≡ (done u, same)
      → (are_preserved m.host tables ≡ true) × (m ≡ same)
  unfolding check_host_tables_preserved
  preserved-inv tables m same h = elim (Bool-cases (are_preserved m.host tables)) [
    | inl yes_preserved ↦ (yes_preserved, ap (λ r. r.1) (rw yes_preserved at h))
    | inr changed ↦ let no_way = rw changed at h in absurd cc
  ]

  launched :
      (entry : VmxEntry) (tables : HostTables) (m m4 : Machine)
      → m.in_vmx ≡ true
      → launch_guest env entry tables m ≡ (done (record { exits = exits }), m4)
      → HasLaunched env exits tables entry m
  unfolding launch_guest launch_and_stop prepare
  launched entry tables m m4 on h =
      let P = HasLaunched env exits tables entry m in
      let g : GuestRun = record { exits = exits } in
      and_then-elim (prepare env entry m) _ m4 g P h λ u ready e1 h1.
        and_then-elim (check_host_tables_preserved tables ready) _ m4 g P h1 λ v same e2 h2.
          let (preserved, is_same) = preserved-inv tables ready same e2 in
          from_calls entry tables m ready _ on (ap₂ (λ r t. (r, t)) (ap (λ r. r.0) e1) refl)
            (ap (λ r. r.1) e1) preserved
            (ap
                (λ (x : Machine).
                  guest_result
                    (launch (number_now env.cpu (env.run_guest x).1.vmcs) (env.run_guest x).0))
                is_same
              ∙ ap (λ r. r.0) h2)

  module _ (m m1 m' : Machine) (tables : HostTables)
      (activated : activate_host_tables env m ≡ (done tables, m1)) where
    from_vmcs :
        (entry : VmxEntry) (m2 : Machine) (r : Outcome VmxRegion × Machine)
        → enter_vmx env tables m1 ≡ (done entry, m2)
        → create_current env m2 ≡ r
        → r.1.in_vmx ≡ true
        → with_vmcs env entry tables r ≡ (done (record { exits = exits }), m')
        → HasFinished env exits m m'
    from_vmcs entry m2 (done region, t) entered created on h =
        let r = launch_guest env entry tables t in
        let (is_done, left) = tear_down-inv entry (some region) r m' h in
        record {
          tables = tables;
          at_tables = m1;
          is_activated = activated;
          entry = entry;
          at_entry = m2;
          is_entered = entered;
          region = region;
          at_vmcs = t;
          is_created = created;
          launched = launched entry tables t r.1 on (ap₂ (λ x y. (x, y)) is_done refl);
          left = left;
        }
    from_vmcs entry m2 (failed e, t) entered created on h =
        let (is_done, left) = tear_down-inv entry none (failed e, t) m' h in absurd cc
    from_vmcs entry m2 (panicked, t) entered created on h = absurd cc

    from_entry :
        (r : Outcome VmxEntry × Machine)
        → enter_vmx env tables m1 ≡ r
        → IsEntered tables m1 r
        → with_entry env tables r ≡ (done (record { exits = exits }), m')
        → HasFinished env exits m m'
    from_entry (done entry, t) entered is_in h =
        from_vmcs entry t (create_current env t) entered refl
          ((create_current-Keeps env).at t ∙ is_in.2) h
    from_entry (failed e, t) entered is_in h = absurd cc
    from_entry (panicked, t) entered is_in h = absurd cc

  -- A run that succeeds: it activated the host's tables, entered VMX operation and made a VMCS current; from
  -- there the guest was launched in VMX operation, with the host's tables still the activated ones and
  -- nothing changed but the VMCS, every field of which was prepared; its run ended with a stop value that
  -- reads back as finished, after the number of exits that is returned; and the CPU has left VMX operation,
  -- with CR0 and CR4 as `enter_vmx` recorded them.
  pub run-HasFinished :
      (m m' : Machine)
      → run env m ≡ (done (record { exits = exits }), m')
      → HasFinished env exits m m'
  unfolding run
  run-HasFinished m m' h =
      let P = HasFinished env exits m m' in
      let g : GuestRun = record { exits = exits } in
      and_then-elim (activate_host_tables env m) _ m' g P h λ tables m1 e1 h1.
        from_entry m m1 m' tables e1 (enter_vmx env tables m1) refl
          (enter_vmx-IsEntered env tables m1) h1
