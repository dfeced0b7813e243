-- ===== src/BringUp/Prepared.antt =====
-- What `prepare_vmcs` of src/bring_up/mod.rs leaves in the VMCS.
use aleph0_virtualization_hy.Base.{
  ℕ, ◌≡◌, ◌≢◌, refl, sym, ap, ◌∙◌, subst, ◌∷◌, [], ◌++◌, ◌+◌, ◌^◌, true, Option, some, Result, ok,
  err,
}
use aleph0_virtualization_hy.Ept.Publish.{Ept}
use aleph0_virtualization_hy.ExitBitmaps.Region.{ExitBitmaps, bitmap_writes, write_to_vmcs}
use aleph0_virtualization_hy.GuestMemory.{GuestMemory, idt, stack_top}
use aleph0_virtualization_hy.GuestState.{GuestState, from_current, state_writes}
use aleph0_virtualization_hy.Segment.{Host, read_all}
use aleph0_virtualization_hy.Vmcs.Access.{Vmcs, Cpu, vmread, set_ept_pointer, configure_host_entry}
use aleph0_virtualization_hy.Vmcs.Controls.{
  VmcsControlMsrs, ChosenControls, minimal_64_bit_guest, primary_request, optional, or_unsupported,
  choose_controls, control_writes, configure_controls,
}
use aleph0_virtualization_hy.Vmcs.Configured.{configure_controls-written, choose_controls-AreChosen}
use aleph0_virtualization_hy.Vmcs.Manual.{
  HoldsHost, HoldsGuest, HoldsControls, Holds-append, HoldsHost-of, HoldsGuest-of, HoldsControls-of,
}
use aleph0_virtualization_hy.Msr.Controls.{UnsupportedControl}
use aleph0_virtualization_hy.Msr.Legal.{IsChosen, choose-IsChosen}
use aleph0_virtualization_hy.Vmcs.Fields.Controls.{vm_exit_controls, ept_pointer}
use aleph0_virtualization_hy.Vmcs.Fields.Host.{host_rsp, host_rip}
use aleph0_virtualization_hy.Vmcs.Distinct.{Holds, written-Holds}
use aleph0_virtualization_hy.Vmcs.HostChecked.{AreEnterable, configure_host_state-written}
use aleph0_virtualization_hy.Vmcs.HostState.{host_writes, loaded_writes, configure_host_state}
use aleph0_virtualization_hy.Vmcs.Writes.{written}
use aleph0_virtualization_hy.VmExit.Stack.{VmExitStack, top}
use aleph0_virtualization_hy.BringUp.Step.{done, or_panic, or_panic-inv, and_then-elim}
use aleph0_virtualization_hy.BringUp.Prepare.{tagged, captured, stored, prepare_vmcs}
use aleph0_virtualization_hy.BringUp.Writes.{
  all_writes, distinct_all, written_three, written_six, write_to_vmcs-written, tagged-inv,
  captured-inv, stored-inv, set_ept_pointer-written, configure_host_entry-written, vmread-inv,
  exit_controls-written,
}

-- The controls of the minimal guest, by the bits of the manual: NMI exiting and virtual NMIs; I/O bitmaps, MSR
-- bitmaps and secondary controls; EPT; and 64-bit mode of the host and of the guest.
abbrev pub AreLegal : VmcsControlMsrs → ChosenControls → Type 0
AreLegal controls chosen =
    IsChosen controls.pinbased (2 ^ 3 + 2 ^ 5) chosen.pin
    × IsChosen controls.primary (2 ^ 25 + 2 ^ 28 + 2 ^ 31) chosen.primary
    × ((value : ℕ) × (chosen.secondary ≡ some value) × IsChosen controls.secondary (2 ^ 1) value)
    × IsChosen controls.exit (2 ^ 9) chosen.exit
    × IsChosen controls.entry (2 ^ 9) chosen.entry

some_of :
    (wanted : Option ℕ) (r : Result ℕ UnsupportedControl)
    → optional true (or_unsupported r) ≡ ok wanted
    → (value : ℕ) × (wanted ≡ some value) × (r ≡ ok value)
some_of wanted (ok value) h = (value, cc, refl)
some_of wanted (err e) h = absurd cc

chosen-AreLegal :
    (controls : VmcsControlMsrs) (chosen : ChosenControls)
    → choose_controls controls minimal_64_bit_guest ≡ ok chosen
    → AreLegal controls chosen
unfolding primary_request
chosen-AreLegal controls chosen h =
    let are = choose_controls-AreChosen controls minimal_64_bit_guest chosen h in
    let (value, is_value, found) = some_of chosen.secondary _ are.secondary in
    (
      choose-IsChosen controls.pinbased (2 ^ 3 + 2 ^ 5) chosen.pin are.pin,
      choose-IsChosen controls.primary (2 ^ 25 + 2 ^ 28 + 2 ^ 31) chosen.primary are.primary,
      (value, is_value, choose-IsChosen controls.secondary (2 ^ 1) value found),
      choose-IsChosen controls.exit (2 ^ 9) chosen.exit are.exit,
      choose-IsChosen controls.entry (2 ^ 9) chosen.entry are.entry,
    )

-- A VMCS that is ready for VM entry: the chosen controls are legal, the host's selectors are ones that VM
-- entry takes, the guest's state was captured, and the fields, by the encodings of the manual, hold these
-- values.
pub record IsPrepared (cpu : Cpu) (host : Host) (entry_address : ℕ) (controls : VmcsControlMsrs)
    (stack : VmExitStack) (guest : GuestMemory) (ept : Ept) (bitmaps : ExitBitmaps) (s : Vmcs)
    : Type 0 where
  pub chosen : ChosenControls
  pub state : GuestState
  pub stack_end : ℕ
  pub guest_stack_end : ℕ
  pub is_chosen : choose_controls controls minimal_64_bit_guest ≡ ok chosen
  pub is_stack_end : top stack ≡ some stack_end
  pub is_guest_stack_end : stack_top guest ≡ some guest_stack_end
  pub has_entry : entry_address ≢ 0
  pub enterable : AreEnterable (read_all host)
  pub source : Vmcs
  pub is_captured : from_current host cpu source guest.code guest_stack_end (idt guest) ≡ ok state
  pub legal : AreLegal controls chosen
  pub held_controls : HoldsControls s chosen
  pub held_host : HoldsHost s host chosen.exit
  pub held_guest : HoldsGuest s state
  pub held_addresses : Holds s (
      (0x201A, ept.eptp)
      ∷ (0x2004, bitmaps.msr)
      ∷ (0x2000, bitmaps.io_a)
      ∷ (0x2002, bitmaps.io_b)
      ∷ (0x6C14, stack_end)
      ∷ (0x6C16, entry_address)
      ∷ [])

module _ (cpu : Cpu) (host : Host) (entry_address : ℕ) (controls : VmcsControlMsrs)
    (stack : VmExitStack) (guest : GuestMemory) (ept : Ept) (bitmaps : ExitBitmaps) where
  -- What the steps have written, from the second on.
  all-written :
      (s1 s2 s3 s4 s5 s6 s7 : Vmcs) (chosen : ChosenControls) (stack_end : ℕ) (state : GuestState)
      → s2 ≡ written s1 (control_writes chosen)
      → s3 ≡ written s2 ((ept_pointer, ept.eptp) ∷ [])
      → s4 ≡ written s3 (bitmap_writes bitmaps)
      → s5
        ≡ written s4 (host_writes host (read_all host) ++ loaded_writes host (s4 vm_exit_controls))
      → s6 ≡ written s5 ((host_rsp, stack_end) ∷ (host_rip, entry_address) ∷ [])
      → s7 ≡ written s6 (state_writes state)
      → s7
        ≡ written s1
            (all_writes host (read_all host) entry_address chosen ept bitmaps stack_end state)
  all-written s1 s2 s3 s4 s5 s6 s7 chosen stack_end state h2 h3 h4 h5 h6 h7 =
      let read : s4 vm_exit_controls ≡ chosen.exit =
        ap (λ (x : Vmcs). x vm_exit_controls)
          (written_three s1 s2 s3 s4 (control_writes chosen) ((ept_pointer, ept.eptp) ∷ [])
            (bitmap_writes bitmaps) h2 h3 h4)
        ∙ exit_controls-written s1 chosen chosen.secondary ept bitmaps in
      written_six s1 s2 s3 s4 s5 s6 s7 (control_writes chosen) ((ept_pointer, ept.eptp) ∷ [])
        (bitmap_writes bitmaps) (host_writes host (read_all host) ++ loaded_writes host chosen.exit)
        ((host_rsp, stack_end) ∷ (host_rip, entry_address) ∷ []) (state_writes state) h2 h3 h4
        (h5
          ∙ ap (λ (c : ℕ). written s4 (host_writes host (read_all host) ++ loaded_writes host c))
              read)
        h6 h7

  all-IsPrepared :
      (s1 s2 s3 s4 s5 s6 s7 s8 s9 s10 s' : Vmcs) (x stack_end guest_end : ℕ) (state : GuestState)
      → tagged cpu "control setup" (configure_controls cpu controls minimal_64_bit_guest) s1
        ≡ (done tt, s2)
      → tagged cpu "EPT pointer setup" (set_ept_pointer cpu ept.eptp) s2 ≡ (done tt, s3)
      → tagged cpu "exit bitmap setup" (write_to_vmcs cpu bitmaps) s3 ≡ (done tt, s4)
      → tagged cpu "host-state setup" (configure_host_state cpu host) s4 ≡ (done tt, s5)
      → tagged cpu "exit-control readback" (vmread cpu vm_exit_controls) s5 ≡ (done x, s6)
      → or_panic (top stack) s6 ≡ (done stack_end, s7)
      → tagged cpu "host entry address setup" (configure_host_entry cpu stack_end entry_address) s7
        ≡ (done tt, s8)
      → or_panic (stack_top guest) s8 ≡ (done guest_end, s9)
      → captured cpu host guest.code guest_end guest s9 ≡ (done state, s10)
      → stored cpu state s10 ≡ (done tt, s')
      → IsPrepared cpu host entry_address controls stack guest ept bitmaps s'
  all-IsPrepared s1 s2 s3 s4 s5 s6 s7 s8 s9 s10 s' x stack_end guest_end state e2 e3 e4 e5 e6 e7 e8
        e9 e10 e11 =
      let (chosen, is_chosen, w2) =
        configure_controls-written cpu controls minimal_64_bit_guest s1 s2 (
          tagged-inv cpu "control setup" (configure_controls cpu controls minimal_64_bit_guest) s1
            s2 tt e2) in
      let w3 =
        set_ept_pointer-written cpu ept.eptp s2 s3
          (tagged-inv cpu "EPT pointer setup" (set_ept_pointer cpu ept.eptp) s2 s3 tt e3) in
      let w4 =
        write_to_vmcs-written cpu bitmaps s3 s4
          (tagged-inv cpu "exit bitmap setup" (write_to_vmcs cpu bitmaps) s3 s4 tt e4) in
      let (enterable, w5) =
        configure_host_state-written cpu host s4 s5
          (tagged-inv cpu "host-state setup" (configure_host_state cpu host) s4 s5 tt e5) in
      let same6 =
        vmread-inv cpu vm_exit_controls s5 s6 x
          (tagged-inv cpu "exit-control readback" (vmread cpu vm_exit_controls) s5 s6 x e6) in
      let (is_stack_end, same7) = or_panic-inv (top stack) s6 s7 stack_end e7 in
      let (has_entry, w8) = configure_host_entry-written cpu stack_end entry_address s7 s8 (
        tagged-inv cpu "host entry address setup" (configure_host_entry cpu stack_end entry_address)
          s7 s8 tt e8) in
      let (is_guest_end, same9) = or_panic-inv (stack_top guest) s8 s9 guest_end e9 in
      let (is_captured, same10) =
        captured-inv cpu host guest.code guest_end guest s9 s10 state e10 in
      let w11 = stored-inv cpu state s10 s' e11 in
      let whole =
        all-written s1 s2 s3 s4 s5 s8 s' chosen stack_end state w2 w3 w4 w5
          (w8
            ∙ ap (λ (v : Vmcs). written v ((host_rsp, stack_end) ∷ (host_rip, entry_address) ∷ []))
                (same7 ∙ same6))
          (w11 ∙ ap (λ (v : Vmcs). written v (state_writes state)) (same10 ∙ same9)) in
      let held =
        subst
          (λ (v : Vmcs).
            Holds v
              (all_writes host (read_all host) entry_address chosen ept bitmaps stack_end state))
          (sym whole)
          (written-Holds _ s1
            (distinct_all host (read_all host) entry_address chosen ept bitmaps stack_end state)) in
      let (of_controls, after_controls) =
        Holds-append s' (control_writes chosen)
          ((ept_pointer, ept.eptp)
            ∷ (bitmap_writes bitmaps
                ++ ((host_writes host (read_all host) ++ loaded_writes host chosen.exit)
                    ++ ((host_rsp, stack_end) ∷ (host_rip, entry_address) ∷ state_writes state))))
          held in
      let (of_ept, after_ept) = after_controls in
      let (of_bitmaps, after_bitmaps) =
        Holds-append s' (bitmap_writes bitmaps)
          ((host_writes host (read_all host) ++ loaded_writes host chosen.exit)
            ++ ((host_rsp, stack_end) ∷ (host_rip, entry_address) ∷ state_writes state))
          after_ept in
      let (msr, (io_a, (io_b, nothing))) = of_bitmaps in
      let (of_host, after_host) =
        Holds-append s' (host_writes host (read_all host) ++ loaded_writes host chosen.exit)
          ((host_rsp, stack_end) ∷ (host_rip, entry_address) ∷ state_writes state) after_bitmaps in
      let (of_rsp, (of_rip, of_guest)) = after_host in
      record {
        chosen = chosen;
        state = state;
        stack_end = stack_end;
        guest_stack_end = guest_end;
        is_chosen = is_chosen;
        is_stack_end = is_stack_end;
        is_guest_stack_end = is_guest_end;
        has_entry = has_entry;
        enterable = enterable;
        source = s9;
        is_captured = is_captured;
        legal = chosen-AreLegal controls chosen is_chosen;
        held_controls =
            HoldsControls-of s' chosen.pin chosen.primary chosen.exit chosen.entry chosen.secondary
              of_controls;
        held_host = HoldsHost-of s' host chosen.exit of_host;
        held_guest = HoldsGuest-of s' state state.pat state.efer of_guest;
        held_addresses = (of_ept, (msr, (io_a, (io_b, (of_rsp, (of_rip, tt))))));
      }

  pub prepare_vmcs-IsPrepared :
      (s s' : Vmcs)
      → prepare_vmcs cpu host entry_address controls stack guest ept bitmaps s ≡ (done tt, s')
      → IsPrepared cpu host entry_address controls stack guest ept bitmaps s'
  unfolding prepare_vmcs
  prepare_vmcs-IsPrepared s s' h =
      let P = IsPrepared cpu host entry_address controls stack guest ept bitmaps s' in
      and_then-elim _ _ s' tt P h λ u1 s1 e1 h1. and_then-elim _ _ s' tt P h1 λ u2 s2 e2 h2.
        and_then-elim _ _ s' tt P h2 λ u3 s3 e3 h3. and_then-elim _ _ s' tt P h3 λ u4 s4 e4 h4.
          and_then-elim _ _ s' tt P h4 λ u5 s5 e5 h5. and_then-elim _ _ s' tt P h5 λ x s6 e6 h6.
            and_then-elim _ _ s' tt P h6 λ stack_end s7 e7 h7.
              and_then-elim _ _ s' tt P h7 λ u8 s8 e8 h8.
                and_then-elim _ _ s' tt P h8 λ guest_end s9 e9 h9.
                  and_then-elim _ _ s' tt P h9 λ state s10 e10 h10.
                    all-IsPrepared s1 s2 s3 s4 s5 s6 s7 s8 s9 s10 s' x stack_end guest_end state e2
                      e3 e4 e5 e6 e7 e8 e9 e10 h10
