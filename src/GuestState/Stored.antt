-- ===== src/GuestState/Stored.antt =====
-- What `GuestState::write` of src/vmx/guest_state.rs leaves in the VMCS.
use aleph0_virtualization_hy.Base.{
  ℕ, ◌<◌, ◌≡◌, ◌⊎◌, inl, inr, refl, sym, ap, ◌∙◌, subst, true, List, [], ◌∷◌, All, Option, none,
  some, Result, ok, err, ◌++◌,
}
use aleph0_virtualization_hy.Vmcs.{VmcsError}
use aleph0_virtualization_hy.Vmcs.Access.{Vmcs, Cpu, write_field, write_verified}
use aleph0_virtualization_hy.Vmcs.Writes.{
  written, is_listed, field_limit, IsWorking, write_verified-cases, write_verified-works,
}
use aleph0_virtualization_hy.Vmcs.Distinct.{is_distinct, Holds, written-Holds}
use aleph0_virtualization_hy.Vmcs.Manual.{HoldsGuest, HoldsGuest-of}
use aleph0_virtualization_hy.GuestState.{
  vmcs, GuestState, GuestStateError, state_writes, of_field, and_then, write_state_field,
  write_fields, write,
}

module _ (cpu : Cpu) where
  -- The writes stop at a pair whose verified write fails, after those before it, and keep what it has left.
  abbrev pub StopsAt : List (ℕ × ℕ) → Vmcs → Result (Unit {0}) GuestStateError × Vmcs → Type 0
  StopsAt ws s r =
      (before : List (ℕ × ℕ)) × (field : ℕ) × (value : ℕ) × (after : List (ℕ × ℕ)) × (e : VmcsError)
      × (ws ≡ before ++ ((field, value) ∷ after))
      × ((write_verified cpu field value (written s before)).0 ≡ err e)
      × (r ≡ (err (vmcs field e), (write_verified cpu field value (written s before)).1))

  write_fields-cases :
      (ws : List (ℕ × ℕ)) (s : Vmcs)
      → (write_fields cpu ws s ≡ (ok tt, written s ws)) ⊎ StopsAt ws s (write_fields cpu ws s)
  unfolding write_fields write_state_field written
  write_fields-cases [] s = inl refl
  write_fields-cases ((f, v) ∷ ws) s = elim (write_verified-cases cpu f v s) [
    | inl done ↦
        let step : write_fields cpu ((f, v) ∷ ws) s ≡ write_fields cpu ws (write_field s f v) =
          ap (λ r. and_then (of_field f r.0, r.1) (write_fields cpu ws)) done in
        elim (write_fields-cases ws (write_field s f v)) [
          | inl rest ↦ inl (step ∙ rest)
          | inr (before, field, value, after, e, split, fails, failed) ↦ inr (
            (f, v) ∷ before,
            field,
            value,
            after,
            e,
            ap (λ l. (f, v) ∷ l) split,
            fails,
            step ∙ failed,
          )
        ]
    | inr (e, t, failed, changed) ↦ inr (
      [],
      f,
      v,
      ws,
      e,
      refl,
      ap (λ r. r.0) failed,
      ap (λ r. and_then (of_field f r.0, r.1) (write_fields cpu ws)) failed
          ∙ ap (λ (x : Vmcs). (err (vmcs f e), x)) (sym (ap (λ r. r.1) failed)),
    )
  ]

  write_fields-works :
      (ws : List (ℕ × ℕ)) (s : Vmcs)
      → IsWorking cpu
      → All (λ w. w.1 < field_limit w.0) ws
      → write_fields cpu ws s ≡ (ok tt, written s ws)
  unfolding write_fields write_state_field written
  write_fields-works [] s works fits = refl
  write_fields-works ((f, v) ∷ ws) s works (fit, rest) =
      ap (λ r. and_then (of_field f r.0, r.1) (write_fields cpu ws))
        (write_verified-works cpu works f v s fit)
      ∙ write_fields-works ws (write_field s f v) works rest

-- No field is written twice.
distinct_with :
    (state : GuestState) (pat efer : Option ℕ)
    → is_distinct (state_writes (record state { pat = pat; efer = efer })) ≡ true
unfolding is_distinct is_listed
distinct_with state (some pat) (some efer) = refl
distinct_with state (some pat) none = refl
distinct_with state none (some efer) = refl
distinct_with state none none = refl

-- A success has made every write.
pub write-written :
    (cpu : Cpu) (state : GuestState) (s s' : Vmcs)
    → write cpu state s ≡ (ok tt, s')
    → s' ≡ written s (state_writes state)
unfolding write
write-written cpu state s s' h = elim (write_fields-cases cpu (state_writes state) s) [
  | inl done ↦ sym (ap (λ r. r.1) h) ∙ ap (λ r. r.1) done
  | inr (before, field, value, after, e, split, fails, failed) ↦
      let no : err (vmcs field e) ≡ ok tt = sym (ap (λ r. r.0) failed) ∙ ap (λ r. r.0) h in
      absurd cc
]

-- Either `write` succeeds, and then the guest-state area of the VMCS, by the encodings of the manual, holds
-- the state; or it has made the writes before one, the verified write of that one fails, and it returns
-- that field with that failure.
pub write-Holds :
    (cpu : Cpu) (state : GuestState) (s : Vmcs)
    → (((write cpu state s).0 ≡ ok tt) × HoldsGuest (write cpu state s).1 state)
      ⊎ StopsAt cpu (state_writes state) s (write cpu state s)
unfolding write
write-Holds cpu state s = elim (write_fields-cases cpu (state_writes state) s) [
  | inl done ↦ inl (
    ap (λ r. r.0) done,
    HoldsGuest-of (write_fields cpu (state_writes state) s).1 state state.pat state.efer (
        subst (λ (x : Vmcs). Holds x (state_writes state)) (sym (ap (λ r. r.1) done))
          (written-Holds (state_writes state) s (distinct_with state state.pat state.efer))),
  )
  | inr failed ↦ inr failed
]

-- On a CPU on which VMREAD and VMWRITE succeed, `write` of a state whose values fit their fields
-- succeeds.
pub write-works :
    (cpu : Cpu) (state : GuestState) (s : Vmcs)
    → IsWorking cpu
    → All (λ w. w.1 < field_limit w.0) (state_writes state)
    → (write cpu state s).0 ≡ ok tt
unfolding write
write-works cpu state s works fits =
    ap (λ r. r.0) (write_fields-works cpu (state_writes state) s works fits)
