-- ===== src/Serial/Probe.antt =====
-- The loopback test of `init` in src/serial.rs.
use aleph0_virtualization_hy.Base.{
  ℕ, zero, suc, ◌+◌, ◌≡◌, inl, inr, refl, ap, true, Option, none, some, List, ◌∷◌, bit_and, ◌==◌,
  ◌!=◌, Bool-cases, arith, Result, ok, err,
}
use aleph0_virtualization_hy.Serial.{
  Uart, Com1, Access, was_read, was_written, SerialError, com1, data_register, line_status,
  modem_control, modem_ready, inb, outb, spin_limit, received, set_up, probe, accepted, init,
  status_data_ready,
}

module _ {D : Type 0} (uart : Uart D) where
  -- The last accesses of a probe that came back.
  abbrev pub HasReceived : ℕ → List Access → Type 0
  HasReceived value log =
      (status : ℕ) × (earlier : List Access) × ((bit_and status status_data_ready != 0) ≡ true)
      × (log
          ≡ was_read (com1 + data_register) value ∷ was_read (com1 + line_status) status ∷ earlier)

  received-inv :
      (polls : ℕ) (s : Com1 D) (value : ℕ)
      → (received uart polls s).0 ≡ some value
      → HasReceived value (received uart polls s).1.log
  unfolding received
  received-inv zero s value h = absurd cc
  received-inv (suc polls) s value h =
      elim (Bool-cases (bit_and (inb uart (com1 + line_status) s).0 status_data_ready != 0)) [
        | inl e ↦
            let same = rw (received, e) at h in
            rw (received, e)
              (
                _,
                s.log,
                e,
                ap
                    (λ v.
                      was_read (com1 + data_register) v ∷ (inb uart (com1 + line_status) s).1.log)
                    cc,
              )
        | inr e ↦
            let later = rw (received, e) at h in
            rw (received, e) (received-inv polls (inb uart (com1 + line_status) s).1 value later)
      ]

  received-ready : (polls : ℕ) (s : Com1 D) → (received uart polls s).1.ready ≡ s.ready
  unfolding received
  received-ready zero s = refl
  received-ready (suc polls) s =
      elim (Bool-cases (bit_and (inb uart (com1 + line_status) s).0 status_data_ready != 0)) [
        | inl e ↦ rw (received, e) refl
        | inr e ↦ rw (received, e) (received-ready polls (inb uart (com1 + line_status) s).1)
      ]

  -- The result and the log of an `init`: it has succeeded just after the probe came back, or has changed
  -- nothing in whether output is enabled.
  abbrev pub IsProbed : Com1 D → Result (Unit {0}) SerialError × Com1 D → Type 0
  IsProbed s (ok nothing, t) =
      (t.ready ≡ true)
      × ((log : List Access) × HasReceived probe log
          × (t.log ≡ was_written (com1 + modem_control) modem_ready ∷ log))
  IsProbed s (err e, t) = t.ready ≡ s.ready

  accepted-IsProbed :
      (s t : Com1 D) (value : Option ℕ)
      → ((v : ℕ) → value ≡ some v → HasReceived v t.log)
      → t.ready ≡ s.ready
      → IsProbed s (accepted uart value (outb uart (com1 + modem_control) modem_ready t))
  accepted-IsProbed s t none h r = r
  accepted-IsProbed s t (some value) h r = elim (Bool-cases (value == probe)) [
    | inl e ↦
        let same : value ≡ probe = ground (arith, e) in
        rw e (refl, (t.log, h probe (ap (λ v. some v) same), refl))
    | inr e ↦ rw e r
  ]

  -- `init` enables output only if the probe came back: a poll found a received byte, which was read as the
  -- probe, and loopback was left after that. If it fails, output is enabled just if it was before.
  pub init-IsProbed : (s : Com1 D) → IsProbed s (init uart s)
  unfolding init
  init-IsProbed s =
      accepted-IsProbed s (received uart spin_limit (set_up uart s)).1
        (received uart spin_limit (set_up uart s)).0
        (λ v. received-inv spin_limit (set_up uart s) v) (received-ready spin_limit (set_up uart s))
