-- ===== src/Serial/Polled.antt =====
-- The polls of COM1: a byte waits until the transmitter is empty, and never for more than the limit.
use aleph0_virtualization_hy.Base.{
  ℕ, zero, suc, ◌+◌, ◌*◌, ◌≤◌, ◌≡◌, inl, inr, sym, subst, Bool, true, false, List, [], ◌∷◌, length,
  bit_and, ◌==◌, ◌!=◌, Bool-cases, arith,
}
use aleph0_virtualization_hy.Serial.{
  Uart, Com1, Access, was_read, was_written, com1, data_register, line_status, inb, spin_limit,
  wait, write_byte, write_str, status_transmit_empty,
}
use aleph0_virtualization_hy.Serial.Chip.{expand}
use aleph0_virtualization_hy.Serial.Wire.{write_byte_ready, write_byte_unready}

-- The accesses since `start`: polls, and bytes that follow a poll which found the transmitter empty.
pub data AreAwaited (start : List Access) : List Access → Type 0 where
  nothing_yet : AreAwaited start start
  has_polled :
      (log : List Access) (status : ℕ)
      → AreAwaited start log
      → AreAwaited start (was_read (com1 + line_status) status ∷ log)
  has_sent :
      (log : List Access) (status byte : ℕ)
      → AreAwaited start log
      → (bit_and status status_transmit_empty != 0) ≡ true
      → AreAwaited start
          (was_written (com1 + data_register) byte ∷ was_read (com1 + line_status) status ∷ log)

module _ {D : Type 0} (uart : Uart D) where
  -- Whether one of the next polls finds the transmitter empty.
  unfoldable pub settles : ℕ → D → Bool
  settles zero device = false
  settles (suc polls) device =
      let (status, polled) = uart.input (com1 + line_status) device in
      elim (bit_and status status_transmit_empty != 0) [
        | true ↦ true
        | false ↦ settles polls polled
      ]

  wait-awaited :
      (polls byte : ℕ) (s : Com1 D) (start : List Access)
      → settles polls s.device ≡ true
      → AreAwaited start s.log
      → AreAwaited start (was_written (com1 + data_register) byte ∷ (wait uart polls s).log)
  unfolding settles wait
  wait-awaited zero byte s start h a = absurd cc
  wait-awaited (suc polls) byte s start h a =
      elim (Bool-cases (bit_and (inb uart (com1 + line_status) s).0 status_transmit_empty != 0)) [
        | inl e ↦ rw (wait, e) (has_sent s.log _ byte a e)
        | inr e ↦
            let later = rw (settles, e) at h in
            rw (wait, e)
              (wait-awaited polls byte (inb uart (com1 + line_status) s).1 start later
                (has_polled s.log _ a))
      ]

  module _ (settled : (device : D) → settles spin_limit device ≡ true) where
    write_byte-AreAwaited :
        (byte : ℕ) (s : Com1 D) (start : List Access)
        → AreAwaited start s.log
        → AreAwaited start (write_byte uart byte s).log
    unfolding write_byte
    write_byte-AreAwaited byte s start a = elim (Bool-cases s.ready) [
      | inl r ↦
          subst (λ (t : Com1 D). AreAwaited start t.log) (sym (write_byte_ready uart byte s r))
            (wait-awaited spin_limit byte s start (settled s.device) a)
      | inr r ↦
          subst (λ (t : Com1 D). AreAwaited start t.log) (sym (write_byte_unready uart byte s r)) a
    ]

    -- When every poll loop finds the transmitter empty before its limit, `write_str` writes each byte right
    -- after a poll that found it empty, and accesses the port for nothing else.
    pub write_str-AreAwaited :
        (text : List ℕ) (s : Com1 D) (start : List Access)
        → AreAwaited start s.log
        → AreAwaited start (write_str uart text s).log
    unfolding write_str
    write_str-AreAwaited [] s start a = a
    write_str-AreAwaited (byte ∷ text) s start a = elim (Bool-cases (byte == 10)) [
      | inl e ↦
          rw (write_str, e)
            (write_str-AreAwaited text (write_byte uart byte (write_byte uart 13 s)) start (
              write_byte-AreAwaited byte (write_byte uart 13 s) start
                (write_byte-AreAwaited 13 s start a)))
      | inr e ↦
          rw (write_str, e)
            (write_str-AreAwaited text (write_byte uart byte s) start
              (write_byte-AreAwaited byte s start a))
    ]

  wait-bounded : (polls : ℕ) (s : Com1 D) → length (wait uart polls s).log ≤ length s.log + polls
  unfolding wait
  wait-bounded zero s = omega arith
  wait-bounded (suc polls) s =
      elim (Bool-cases (bit_and (inb uart (com1 + line_status) s).0 status_transmit_empty != 0)) [
        | inl e ↦ rw (wait, e) (omega arith)
        | inr e ↦
            rw (wait, e)
              (let later = wait-bounded polls (inb uart (com1 + line_status) s).1 in omega arith)
      ]

  write_byte-bounded :
      (byte : ℕ) (s : Com1 D)
      → length (write_byte uart byte s).log ≤ length s.log + (spin_limit + 1)
  write_byte-bounded byte s = elim (Bool-cases s.ready) [
    | inl r ↦
        subst (λ (t : Com1 D). length t.log ≤ length s.log + (spin_limit + 1))
          (sym (write_byte_ready uart byte s r))
          (let at_most = wait-bounded spin_limit s in omega arith)
    | inr r ↦
        subst (λ (t : Com1 D). length t.log ≤ length s.log + (spin_limit + 1))
          (sym (write_byte_unready uart byte s r)) (omega arith)
  ]

  -- Whatever the device does, `write_str` returns after at most 100,001 accesses for each byte that it sends.
  pub write_str-bounded :
      (text : List ℕ) (s : Com1 D)
      → length (write_str uart text s).log ≤ length s.log + (spin_limit + 1) * length (expand text)
  unfolding write_str expand
  write_str-bounded [] s = omega arith
  write_str-bounded (byte ∷ text) s = elim (Bool-cases (byte == 10)) [
    | inl e ↦
        let first = write_byte-bounded 13 s in
        let second = write_byte-bounded byte (write_byte uart 13 s) in
        let others = write_str-bounded text (write_byte uart byte (write_byte uart 13 s)) in
        rw (write_str, expand, e) (omega arith)
    | inr e ↦
        let first = write_byte-bounded byte s in
        let others = write_str-bounded text (write_byte uart byte s) in
        rw (write_str, expand, e) (omega arith)
  ]
