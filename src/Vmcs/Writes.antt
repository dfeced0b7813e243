-- ===== src/Vmcs/Writes.antt =====
-- What a run of verified writes of src/vmx/vmcs/mod.rs leaves in the VMCS.
use aleph0_virtualization_hy.Base.{
  ℕ, ◌/◌, ◌%◌, ◌^◌, ◌<◌, ◌≡◌, ◌⊎◌, inl, inr, refl, sym, ap, ◌∙◌, Bool, false, ◌||◌, List, [], ◌∷◌,
  arith, ◌==◌, ◌!=◌, ==_iff, Bool-cases, if◌then◌else◌, Result, ok, err, All, Result-cases,
}
use aleph0_virtualization_hy.Instruction.{VmxFail, check_rflags}
use aleph0_virtualization_hy.Vmcs.{VmcsError, from_fail, readback_mismatch}
use aleph0_virtualization_hy.Vmcs.Access.{
  Vmcs, Cpu, Action, raise, pure, and_then, ◌>>=◌, write_field, vmread, vmwrite, write_verified,
  write_all,
}

pub write_field_self : (s : Vmcs) (f v : ℕ) → write_field s f v f ≡ v
write_field_self s f v = rw ((==_iff f f).1 refl) refl

pub write_field_ne : (s : Vmcs) (f v g : ℕ) → (g == f) ≡ false → write_field s f v g ≡ s g
write_field_ne s f v g other = rw other refl

pub flags-cases :
    (rflags : ℕ) → (check_rflags rflags ≡ ok tt) ⊎ ((e : VmxFail) × (check_rflags rflags ≡ err e))
flags-cases rflags = elim (Result-cases (check_rflags rflags)) [
  | inl (done, e) ↦ inl e
  | inr (fail, e) ↦ inr (fail, e)
]

-- A verified write has stored the value, or it fails and has changed no other field.
abbrev pub WriteOutcome : Vmcs → ℕ → ℕ → Result (Unit {0}) VmcsError × Vmcs → Type 0
WriteOutcome s f v r =
    (r ≡ (ok tt, write_field s f v))
    ⊎ ((e : VmcsError) × (s' : Vmcs) × (r ≡ (err e, s'))
        × ((s' ≡ s) ⊎ ((w : ℕ) × (s' ≡ write_field s f w))))

-- A bind goes on after a success, and ends at a failure.
module _ {A B : Type 0} (m : Action A) (k : A → Action B) (s s' : Vmcs) where
  pub bind-ok : (a : A) → m s ≡ (ok a, s') → (m >>= k) s ≡ k a s'
  bind-ok a h = ap (λ r. and_then r k) h

  pub bind-err : (e : VmcsError) → m s ≡ (err e, s') → (m >>= k) s ≡ (err e, s')
  bind-err e h = ap (λ r. and_then r k) h

module _ (cpu : Cpu) (f : ℕ) (s : Vmcs) where
  pub vmread-ok : check_rflags (cpu.read_flags f) ≡ ok tt → vmread cpu f s ≡ (ok (s f), s)
  unfolding vmread
  vmread-ok h = rw h refl

  pub vmread-err :
      (e : VmxFail)
      → check_rflags (cpu.read_flags f) ≡ err e
      → vmread cpu f s ≡ (err (from_fail e), s)
  unfolding vmread
  vmread-err e h = rw h refl

  pub vmwrite-ok :
      (v : ℕ)
      → check_rflags (cpu.write_flags f) ≡ ok tt
      → vmwrite cpu f v s ≡ (ok tt, write_field s f (cpu.kept f v))
  unfolding vmwrite
  vmwrite-ok v h = rw h refl

  pub vmwrite-err :
      (v : ℕ) (e : VmxFail)
      → check_rflags (cpu.write_flags f) ≡ err e
      → vmwrite cpu f v s ≡ (err (from_fail e), s)
  unfolding vmwrite
  vmwrite-err v e h = rw h refl

module _ (cpu : Cpu) where
  pub write_verified-cases : (f v : ℕ) (s : Vmcs) → WriteOutcome s f v (write_verified cpu f v s)
  unfolding write_verified
  write_verified-cases f v s =
      let w = cpu.kept f v in
      let stored = write_field s f w in
      let check : ℕ → Action (Unit {0}) =
        λ read. if read != v then raise (readback_mismatch f v read) else pure tt in
      elim (flags-cases (cpu.write_flags f)) [
        | inr (e, refused) ↦ inr (
          from_fail e,
          s,
          bind-err (vmwrite cpu f v) (λ _. vmread cpu f >>= check) s s (from_fail e)
              (vmwrite-err cpu f s v e refused),
          inl refl,
        )
        | inl wrote ↦
            let on =
              bind-ok (vmwrite cpu f v) (λ _. vmread cpu f >>= check) s stored tt
                (vmwrite-ok cpu f s v wrote) in
            elim (flags-cases (cpu.read_flags f)) [
              | inr (e, unread) ↦ inr (
                from_fail e,
                stored,
                on
                    ∙ bind-err (vmread cpu f) check stored stored (from_fail e)
                        (vmread-err cpu f stored e unread),
                inr (w, refl),
              )
              | inl read ↦
                  let back =
                    on
                    ∙ bind-ok (vmread cpu f) check stored stored (stored f)
                        (vmread-ok cpu f stored read)
                    ∙ ap (λ r. check r stored) (write_field_self s f w) in
                  elim (Bool-cases (w != v)) [
                    | inl differs ↦
                        inr (readback_mismatch f v w, stored, back ∙ rw differs refl, inr (w, refl))
                    | inr same ↦
                        let e : w ≡ v = ground arith in
                        inl (back ∙ rw same (ap (λ (x : ℕ). (ok tt, write_field s f x)) e))
                  ]
            ]
      ]

-- The VMCS after a list of writes.
unfoldable pub written : Vmcs → List (ℕ × ℕ) → Vmcs
written s [] = s
written s ((f, v) ∷ ws) = written (write_field s f v) ws

unfoldable pub is_listed : ℕ → List (ℕ × ℕ) → Bool
is_listed g [] = false
is_listed g ((f, v) ∷ ws) = (g == f) || is_listed g ws

module _ (cpu : Cpu) where
  pub write_all-ok :
      (ws : List (ℕ × ℕ)) (s s' : Vmcs) → write_all cpu ws s ≡ (ok tt, s') → s' ≡ written s ws
  unfolding write_all written
  write_all-ok [] s s' h = sym (ap (λ r. r.1) h)
  write_all-ok ((f, v) ∷ ws) s s' h = elim (write_verified-cases cpu f v s) [
    | inl done ↦
        write_all-ok ws (write_field s f v) s'
          (sym (bind-ok (write_verified cpu f v) (λ _. write_all cpu ws) s _ tt done) ∙ h)
    | inr (e, t, failed, same) ↦
        let no : Path (Result (Unit {0}) VmcsError × Vmcs) (err e, t) (ok tt, s') =
          sym (bind-err (write_verified cpu f v) (λ _. write_all cpu ws) s t e failed) ∙ h in
        absurd cc
  ]

  -- A field that is not written keeps its value, also when a write fails.
  pub write_all_unlisted :
      (ws : List (ℕ × ℕ)) (s : Vmcs) (g : ℕ)
      → is_listed g ws ≡ false
      → (write_all cpu ws s).1 g ≡ s g
  unfolding write_all is_listed
  write_all_unlisted [] s g h = refl
  write_all_unlisted ((f, v) ∷ ws) s g h =
      let apart : (g == f) ≡ false = ground arith in
      let rest : is_listed g ws ≡ false = ground arith in
      elim (write_verified-cases cpu f v s) [
        | inl done ↦
            ap (λ r. r.1 g) (bind-ok (write_verified cpu f v) (λ _. write_all cpu ws) s _ tt done)
            ∙ write_all_unlisted ws (write_field s f v) g rest
            ∙ write_field_ne s f v g apart
        | inr (e, t, failed, same) ↦
            ap (λ r. r.1 g) (bind-err (write_verified cpu f v) (λ _. write_all cpu ws) s t e failed)
            ∙ elim same [
              | inl kept ↦ ap (λ (x : Vmcs). x g) kept
              | inr (w, half) ↦ ap (λ (x : Vmcs). x g) half ∙ write_field_ne s f w g apart
            ]
      ]

-- Bits 14:13 of an encoding give the field's width.
abbrev pub field_limit : ℕ → ℕ
field_limit field =
    if field / 2 ^ 13 % 4 == 0 then 2 ^ 16 else if field / 2 ^ 13 % 4 == 2 then 2 ^ 32 else 2 ^ 64

-- A CPU on which VMREAD and VMWRITE succeed, and a field keeps a value of its width.
pub record IsWorking (cpu : Cpu) : Type 0 where
  pub reads : (field : ℕ) → check_rflags (cpu.read_flags field) ≡ ok tt
  pub writes : (field : ℕ) → check_rflags (cpu.write_flags field) ≡ ok tt
  pub keeps : (field value : ℕ) → value < field_limit field → cpu.kept field value ≡ value

module _ (cpu : Cpu) (works : IsWorking cpu) where
  pub write_verified-works :
      (f v : ℕ) (s : Vmcs)
      → v < field_limit f
      → write_verified cpu f v s ≡ (ok tt, write_field s f v)
  unfolding write_verified
  write_verified-works f v s fits =
      let w = cpu.kept f v in
      let stored = write_field s f w in
      let keeps = works.keeps f v fits in
      let check : ℕ → Action (Unit {0}) =
        λ read. if read != v then raise (readback_mismatch f v read) else pure tt in
      let same : (w != v) ≡ false = ground arith in
      bind-ok (vmwrite cpu f v) (λ _. vmread cpu f >>= check) s stored tt
        (vmwrite-ok cpu f s v (works.writes f))
      ∙ bind-ok (vmread cpu f) check stored stored (stored f)
          (vmread-ok cpu f stored (works.reads f))
      ∙ ap (λ r. check r stored) (write_field_self s f w)
      ∙ rw same (ap (λ (x : ℕ). (ok tt, write_field s f x)) keeps)

  pub write_all-works :
      (ws : List (ℕ × ℕ)) (s : Vmcs)
      → All (λ w. w.1 < field_limit w.0) ws
      → write_all cpu ws s ≡ (ok tt, written s ws)
  unfolding write_all written
  write_all-works [] s fits = refl
  write_all-works ((f, v) ∷ ws) s (fits, rest) =
      bind-ok (write_verified cpu f v) (λ _. write_all cpu ws) s (write_field s f v) tt
        (write_verified-works f v s fits)
      ∙ write_all-works ws (write_field s f v) rest
