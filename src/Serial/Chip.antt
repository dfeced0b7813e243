-- ===== src/Serial/Chip.antt =====
-- The 16550 UART as the table of registers in src/serial.rs has it: what the accesses of a log, the latest
-- first, make of its settings, and which bytes leave it on the wire.
use aleph0_virtualization_hy.Base.{
  ℕ, ◌-◌, ◌/◌, ◌%◌, ◌^◌, Bool, List, [], ◌∷◌, ◌++◌, ◌==◌, if◌then◌else◌,
}
use aleph0_virtualization_hy.Serial.{Access, was_read, was_written}

pub record Chip : Type 0 where
  pub interrupts : ℕ
  pub divisor_low : ℕ
  pub divisor_high : ℕ
  pub fifo : ℕ
  pub line : ℕ
  pub modem : ℕ
  pub sent : List ℕ

-- Bit 7 of line control (DLAB) gives offsets 0 and 1 to the divisor; bit 4 of modem control loops a byte
-- back instead of sending it.
unfoldable pub write_register : ℕ → ℕ → Chip → Chip
write_register offset value c =
    if offset == 0
    then (if c.line / 2 ^ 7 % 2 == 1
        then record c { divisor_low = value }
        else if c.modem / 2 ^ 4 % 2 == 1
        then c
        else record c { sent = c.sent ++ (value ∷ []) })
    else if offset == 1
    then (if c.line / 2 ^ 7 % 2 == 1
        then record c { divisor_high = value }
        else record c { interrupts = value })
    else if offset == 2
    then record c { fifo = value }
    else if offset == 3
    then record c { line = value }
    else if offset == 4
    then record c { modem = value }
    else c

-- `c` is the chip before the log.
unfoldable pub chip : Chip → List Access → Chip
chip c [] = c
chip c (was_read port value ∷ log) = chip c log
chip c (was_written port value ∷ log) = write_register (port - 0x3F8) value (chip c log)

-- Each `\n` becomes `\r\n`.
unfoldable pub expand : List ℕ → List ℕ
expand [] = []
expand (byte ∷ text) = if byte == 10 then 13 ∷ byte ∷ expand text else byte ∷ expand text

-- DLAB, bit 7 of line control.
abbrev pub is_latched : Chip → Bool
is_latched c = c.line / 2 ^ 7 % 2 == 1

-- 115200 baud, 8N1, queues on, DLAB off, and modem control as given; interrupts are off, unless DLAB was on.
abbrev pub configured : ℕ → Chip → Chip
configured modem before = record {
  interrupts = if is_latched before then before.interrupts else 0;
  divisor_low = 1;
  divisor_high = 0;
  fifo = 0xC7;
  line = 3;
  modem = modem;
  sent = before.sent;
}
