-- ===== src/Serial/Wire.antt =====
-- What COM1 sends on the wire.
use mathlib.Core.List.{append-nil, append_assoc}
use aleph0_virtualization_hy.Base.{
  ℕ, zero, suc, ◌+◌, ◌≡◌, inl, inr, refl, sym, ap, ◌∙◌, true, false, Option, none, some, List, [],
  ◌∷◌, ◌++◌, bit_and, ◌==◌, ◌!=◌, Bool-cases, if◌then◌else◌, ok,
}
use aleph0_virtualization_hy.Serial.{
  Uart, Com1, com1, data_register, line_status, modem_control, modem_ready, outb, inb, outb,
  spin_limit, received, set_up, probe, accepted, init, wait, write_byte, write_str,
  status_data_ready, status_transmit_empty,
}
use aleph0_virtualization_hy.Serial.Chip.{
  Chip, write_register, chip, expand, configured, is_latched,
}

pub write_byte_ready :
    {D : Type 0} (uart : Uart D) (byte : ℕ) (s : Com1 D)
    → s.ready ≡ true
    → write_byte uart byte s ≡ outb uart (com1 + data_register) byte (wait uart spin_limit s)
unfolding write_byte
write_byte_ready {D} uart byte s h =
    ap
      (λ b.
        if◌then◌else◌ {A = Com1 D} b
          (outb uart (com1 + data_register) byte (wait uart spin_limit s)) s)
      h

pub write_byte_unready :
    {D : Type 0} (uart : Uart D) (byte : ℕ) (s : Com1 D)
    → s.ready ≡ false
    → write_byte uart byte s ≡ s
unfolding write_byte
write_byte_unready {D} uart byte s h =
    ap
      (λ b.
        if◌then◌else◌ {A = Com1 D} b
          (outb uart (com1 + data_register) byte (wait uart spin_limit s)) s)
      h

module _ {D : Type 0} (uart : Uart D) (c : Chip) where
  chip-received : (polls : ℕ) (s : Com1 D) → chip c (received uart polls s).1.log ≡ chip c s.log
  unfolding received chip
  chip-received zero s = refl
  chip-received (suc polls) s =
      elim (Bool-cases (bit_and (inb uart (com1 + line_status) s).0 status_data_ready != 0)) [
        | inl e ↦ rw (received, e) refl
        | inr e ↦ rw (received, e) (chip-received polls (inb uart (com1 + line_status) s).1)
      ]

  chip-wait : (polls : ℕ) (s : Com1 D) → chip c (wait uart polls s).log ≡ chip c s.log
  unfolding wait chip
  chip-wait zero s = refl
  chip-wait (suc polls) s =
      elim (Bool-cases (bit_and (inb uart (com1 + line_status) s).0 status_transmit_empty != 0)) [
        | inl e ↦ rw (wait, e) refl
        | inr e ↦ rw (wait, e) (chip-wait polls (inb uart (com1 + line_status) s).1)
      ]

  -- The writes before the probe, to a chip with these settings.
  abbrev after_set_up : Chip → Chip
  after_set_up x = write_register 4 0x1B (
      write_register 2 0xC7 (
        write_register 3 3
          (write_register 1 0 (write_register 0 1 (write_register 3 0x80 (write_register 1 0 x))))))

  set_up-configured : (x : Chip) → write_register 0 0xAE (after_set_up x) ≡ configured 0x1B x
  unfolding write_register
  set_up-configured x = elim (Bool-cases (is_latched x)) [ inl e ↦ rw e refl | inr e ↦ rw e refl ]

  chip-set_up : (s : Com1 D) → chip c (set_up uart s).log ≡ configured 0x1B (chip c s.log)
  unfolding chip
  chip-set_up s = set_up-configured (chip c s.log)

  chip-accepted :
      (value : Option ℕ) (s : Com1 D) → chip c (accepted uart value s).1.log ≡ chip c s.log
  chip-accepted none s = refl
  chip-accepted (some value) s = elim (Bool-cases (value == probe)) [
    | inl e ↦ rw e refl
    | inr e ↦ rw e refl
  ]

  -- Whatever the device answers, and whether `init` succeeds or not, it leaves the chip at 115200 baud, 8N1,
  -- with its queues on, ready, and out of loopback, and has sent nothing on the wire; its interrupts are off
  -- if the divisor was not latched before.
  pub init-configured : (s : Com1 D) → chip c (init uart s).1.log ≡ configured 0xB (chip c s.log)
  unfolding init chip write_register
  init-configured s =
      chip-accepted (received uart spin_limit (set_up uart s)).0
        (outb uart (com1 + modem_control) modem_ready (received uart spin_limit (set_up uart s)).1)
      ∙ ap (write_register 4 0xB) (chip-received spin_limit (set_up uart s) ∙ chip-set_up s)

  init-ready : (s : Com1 D) → (init uart s).0 ≡ ok tt → (init uart s).1.ready ≡ true
  unfolding init
  init-ready s h = accepted-ready (received uart spin_limit (set_up uart s)).0 _ h
    where
      accepted-ready :
          (value : Option ℕ) (t : Com1 D)
          → (accepted uart value t).0 ≡ ok tt
          → (accepted uart value t).1.ready ≡ true
      accepted-ready none t h = absurd cc
      accepted-ready (some value) t h = elim (Bool-cases (value == probe)) [
        | inl e ↦ rw e refl
        | inr e ↦ absurd (let no = rw e at h in cc)
      ]

  -- `x` after `init`, with these bytes sent since.
  abbrev pub sending : Chip → List ℕ → Chip
  sending x bytes = record (configured 0xB x) { sent = x.sent ++ bytes }

  wait-ready : (polls : ℕ) (s : Com1 D) → (wait uart polls s).ready ≡ s.ready
  unfolding wait
  wait-ready zero s = refl
  wait-ready (suc polls) s =
      elim (Bool-cases (bit_and (inb uart (com1 + line_status) s).0 status_transmit_empty != 0)) [
        | inl e ↦ rw (wait, e) refl
        | inr e ↦ rw (wait, e) (wait-ready polls (inb uart (com1 + line_status) s).1)
      ]

  write_byte-sent :
      (byte : ℕ) (s : Com1 D) (x : Chip) (bytes : List ℕ)
      → s.ready ≡ true
      → chip c s.log ≡ sending x bytes
      → (chip c (write_byte uart byte s).log ≡ sending x (bytes ++ (byte ∷ [])))
        × ((write_byte uart byte s).ready ≡ true)
  unfolding chip write_register
  write_byte-sent byte s x bytes r h = (
    ap (λ t. chip c t.log) (write_byte_ready uart byte s r)
        ∙ ap (write_register 0 byte) (chip-wait spin_limit s ∙ h)
        ∙ ap (λ sent. record (configured 0xB x) { sent = sent })
            (append_assoc x.sent bytes (byte ∷ [])),
    ap (λ t. t.ready) (write_byte_ready uart byte s r) ∙ wait-ready spin_limit s ∙ r,
  )

  write_str-sending :
      (text : List ℕ) (s : Com1 D) (x : Chip) (bytes : List ℕ)
      → s.ready ≡ true
      → chip c s.log ≡ sending x bytes
      → chip c (write_str uart text s).log ≡ sending x (bytes ++ expand text)
  unfolding write_str expand
  write_str-sending [] s x bytes r h = h ∙ ap (sending x) (sym (append-nil bytes))
  write_str-sending (byte ∷ text) s x bytes r h = elim (Bool-cases (byte == 10)) [
    | inl e ↦
        let (h1, r1) = write_byte-sent 13 s x bytes r h in
        let (h2, r2) = write_byte-sent byte (write_byte uart 13 s) x _ r1 h1 in
        rw (write_str, expand, e)
          (write_str-sending text (write_byte uart byte (write_byte uart 13 s)) x _ r2 h2
            ∙ ap (sending x) (
                append_assoc (bytes ++ (13 ∷ [])) (byte ∷ []) (expand text)
                ∙ append_assoc bytes (13 ∷ []) (byte ∷ expand text)))
    | inr e ↦
        let (h1, r1) = write_byte-sent byte s x bytes r h in
        rw (write_str, expand, e)
          (write_str-sending text (write_byte uart byte s) x _ r1 h1
            ∙ ap (sending x) (append_assoc bytes (byte ∷ []) (expand text)))
  ]

  -- After an `init` that succeeds, `write_str` sends the bytes of the text on the wire, each of them once and
  -- in order, with `\r` before each `\n`, and leaves the settings of the chip alone.
  pub write_str-init :
      (s : Com1 D) (text : List ℕ)
      → (init uart s).0 ≡ ok tt
      → chip c (write_str uart text (init uart s).1).log ≡ sending (chip c s.log) (expand text)
  write_str-init s text h =
      write_str-sending text (init uart s).1 (chip c s.log) [] (init-ready s h) (
        init-configured s
        ∙ ap (λ sent. record (configured 0xB (chip c s.log)) { sent = sent })
            (sym (append-nil (chip c s.log).sent)))
